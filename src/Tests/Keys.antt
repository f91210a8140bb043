-- ===== src/Tests/Keys.antt =====
-- Runs of key generation in the group of five elements.
use oprf_service.Base.{◌++◌, ◌≡◌, refl, List, [], ◌∷◌, some, arith}
use oprf_service.Algebra.Five.{Five, g0, g1, g2, g3, g4, five, mul}
use oprf_service.Algebra.Line.{line}
use oprf_service.Core.Shamir.{◌>>=◌, lagrange_from_coeff, reconstruct}
use oprf_service.Core.Shamir.Sharing.{values}
use oprf_service.Core.Shamir.Poly.{eval}
use oprf_service.Core.Keygen.{
  KeyGenPoly, gen_share, decrypt_share, accumulate_shares, accumulate_lagrange_pks,
}
use oprf_service.Core.Keygen.Encryption.{decrypt_share-gen_share}
use oprf_service.Core.Keygen.PublicKeys.{share_pks, accumulate_lagrange_pks-public}
use oprf_service.Core.Keygen.Dealing.{
  Dealer, Holds, key_share, reshare_each, reconstruct-accumulate_shares, reconstruct-reshare,
}

abbrev dealt : KeyGenPoly Five Five Five
dealt = record { poly = g2 ∷ g1 ∷ []; comm_share = g2; comm_coeffs = g0 }

decrypt_share-gen_share_example :
    (do
      sent ← gen_share line dealt 1 g3 g4 g2
      share ← decrypt_share line g4 g3 sent.ciphertext sent.nonce
      let received : Five × Five = (share, sent.commitment)
      some received)
    ≡ some (eval (g2 ∷ g1 ∷ []) g2, mul g1 (eval (g2 ∷ g1 ∷ []) g2))
decrypt_share-gen_share_example =
    decrypt_share-gen_share line dealt g2 (g1 ∷ []) 1 g3 g4 g2 refl (omega arith)

abbrev dealers : List (Dealer Five)
dealers =
    record { id = 1; secret = g3; coeffs = g2 ∷ [] }
    ∷ record { id = 2; secret = g4; coeffs = g4 ∷ [] }
    ∷ []

reconstruct-accumulate_shares_example :
    (do
      lagrange ← lagrange_from_coeff (1 ∷ 3 ∷ [])
      reconstruct (values (key_share dealers) (1 ∷ 3 ∷ [])) lagrange)
    ≡ some (accumulate_shares (g3 ∷ g4 ∷ []))
reconstruct-accumulate_shares_example =
    reconstruct-accumulate_shares dealers (1 ∷ 3 ∷ []) (ground arith) (ground arith)

held : Holds (eval (g2 ∷ g1 ∷ [])) dealers
unfolding eval
held = (refl, (refl, tt))

reconstruct-reshare_example :
    (do
      lagrange ← lagrange_from_coeff (1 ∷ 2 ∷ [])
      shares ← reshare_each dealers lagrange (2 ∷ 3 ∷ [])
      new_lagrange ← lagrange_from_coeff (2 ∷ 3 ∷ [])
      reconstruct shares new_lagrange)
    ≡ some g2
reconstruct-reshare_example =
    reconstruct-reshare g2 (g1 ∷ []) dealers (2 ∷ 3 ∷ []) (ground arith) (omega arith) held
      (ground arith) (ground arith)

-- The keys of parties 1 and 4, and another one behind them.
accumulate_lagrange_pks-public_example :
    (do
      lagrange ← lagrange_from_coeff ⦃K = five⦄ (1 ∷ 4 ∷ [])
      accumulate_lagrange_pks ⦃S = five⦄ ⦃B = five⦄ line
          (share_pks ⦃S = five⦄ ⦃B = five⦄ line (g2 ∷ g3 ∷ []) (1 ∷ 4 ∷ []) ++ g4 ∷ [])
          lagrange)
    ≡ some (mul g1 g2)
accumulate_lagrange_pks-public_example =
    accumulate_lagrange_pks-public ⦃S = five⦄ ⦃B = five⦄ line g2 (g3 ∷ []) (1 ∷ 4 ∷ []) (g4 ∷ [])
      (ground arith) (omega arith)
