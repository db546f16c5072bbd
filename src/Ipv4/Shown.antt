-- ===== src/Ipv4/Shown.antt =====
-- `str` of an IPv4 address: two addresses with one text are the same.
use vpn_app_ai.Prelude.{
  ℕ, ◌/◌, ◌%◌, ◌^◌, ◌<◌, ◌≡◌, ◌≢◌, sym, ap, ◌∙◌, inl, inr, ltb, All, arith, Bool-cases,
}
use vpn_app_ai.Prelude.Digits.{value, value_onto, cut_first}
use vpn_app_ai.Crypto.Pki.{Text}
use vpn_app_ai.Ipv4.{show_octet, show_ip, dot}

value-show_octet : (n : ℕ) → n < 256 → value (show_octet n) ≡ n
unfolding show_octet value_onto
value-show_octet n lt = ground (arith, lt, Bool-cases (ltb n 10), Bool-cases (ltb n 100))

show_octet_undotted : (n : ℕ) → All (λ c. c ≢ dot) (show_octet n)
unfolding show_octet
show_octet_undotted n = elim (Bool-cases (ltb n 10)) [
  | inl e ↦ rw e (λ q. omega (arith, q), tt)
  | inr e ↦ rw e (elim (Bool-cases (ltb n 100)) [
    | inl e' ↦ rw e' (λ q. omega (arith, q), (λ q. omega (arith, q), tt))
    | inr e' ↦ rw e' (λ q. omega (arith, q), (λ q. omega (arith, q), (λ q. omega (arith, q), tt)))
  ])
]

show_octet_same : (m n : ℕ) → m < 256 → n < 256 → show_octet m ≡ show_octet n → m ≡ n
show_octet_same m n a b e =
    sym (value-show_octet m a) ∙ ap (λ (t : Text). value t) e ∙ value-show_octet n b

pub show_ip_same : (m n : ℕ) → m < 2 ^ 32 → n < 2 ^ 32 → show_ip m ≡ show_ip n → m ≡ n
unfolding show_ip
show_ip_same m n a b e =
    let (e1, rest1) =
      cut_first dot (show_octet (m / 2 ^ 24 % 256)) _ (show_octet (n / 2 ^ 24 % 256)) _
        (show_octet_undotted (m / 2 ^ 24 % 256)) (show_octet_undotted (n / 2 ^ 24 % 256)) e in
    let (e2, rest2) =
      cut_first dot (show_octet (m / 2 ^ 16 % 256)) _ (show_octet (n / 2 ^ 16 % 256)) _
        (show_octet_undotted (m / 2 ^ 16 % 256)) (show_octet_undotted (n / 2 ^ 16 % 256)) rest1 in
    let (e3, e4) =
      cut_first dot (show_octet (m / 2 ^ 8 % 256)) _ (show_octet (n / 2 ^ 8 % 256)) _
        (show_octet_undotted (m / 2 ^ 8 % 256)) (show_octet_undotted (n / 2 ^ 8 % 256)) rest2 in
    let f1 = show_octet_same (m / 2 ^ 24 % 256) (n / 2 ^ 24 % 256) (omega arith) (omega arith) e1 in
    let f2 = show_octet_same (m / 2 ^ 16 % 256) (n / 2 ^ 16 % 256) (omega arith) (omega arith) e2 in
    let f3 = show_octet_same (m / 2 ^ 8 % 256) (n / 2 ^ 8 % 256) (omega arith) (omega arith) e3 in
    let f4 = show_octet_same (m % 256) (n % 256) (omega arith) (omega arith) e4 in
    omega (arith, a, b, f1, f2, f3, f4)
