-- ===== src/Tests/Large.antt =====
-- A payload of two fragments, at both ends of a channel.
use vpn_app_ai.Prelude.{ℕ, suc, zero, ◌≡◌, refl, List, [], ◌∷◌, arith}
use vpn_app_ai.Prelude.Dict.{lookup}
use vpn_app_ai.Prelude.Int.{int_eq}
use vpn_app_ai.Prelude.Result.{returns}
use vpn_app_ai.Bytes.{Bytes}
use vpn_app_ai.Protocol.Data.Encrypt.{encrypt}
use vpn_app_ai.Protocol.Data.Fragmented.{outputs, afterwards, nothing_then, outputs-encrypt}
use vpn_app_ai.Tests.Toys.{toy_packages, toy_aead-AeadLaws, toy_packages-Lz4Laws}
use vpn_app_ai.Tests.Channels.{key, channel, nonces, channel-IsUsable}

repeated : ℕ → Bytes
repeated zero = []
repeated (suc n) = 69 ∷ repeated n

outputs-encrypt_example :
    (wires : List Bytes) × (encrypt toy_packages channel (repeated 1401) nonces
      ≡ returns wires (record channel { packet_counter = 2 }))
    × (outputs toy_packages channel (λ j. j) 0 wires ≡ nothing_then 1 (repeated 1401))
    × ((afterwards toy_packages channel (λ j. j) 0 wires).fragments ≡ [])
unfolding repeated lookup
outputs-encrypt_example =
    outputs-encrypt toy_packages channel key (repeated 1401) nonces channel (λ j. j)
      toy_aead-AeadLaws toy_packages-Lz4Laws channel-IsUsable (omega arith) (λ n. refl)
      (omega arith) (omega arith) (record { same_id = refl; same_cipher = refl }) (λ h e. cc) refl
