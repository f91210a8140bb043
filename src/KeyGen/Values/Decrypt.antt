-- ===== src/KeyGen/Values/Decrypt.antt =====
-- What a node makes of ciphertexts that honest producers made for it.
use oprf_service.Base.{
  ℕ, suc, ◌+◌, ◌≤◌, ◌≡◌, refl, sym, ap, ◌∙◌, List, [], ◌∷◌, ◌++◌, map, Option, none, some, ok,
  length, length-append, ==_iff, subst, get_elem?, arith,
}
use mathlib.Core.Logic.{if_pos}
use mathlib.Core.List.{append_assoc}
use oprf_service.Algebra.Field.{Field}
use oprf_service.Algebra.Suite.{Suite}
use oprf_service.Core.Shamir.{◌>>=◌, dot}
use oprf_service.Core.Shamir.Poly.{eval}
use oprf_service.Core.Keygen.{
  KeyGenPoly, EncryptedShare, gen_share, decrypt_share, accumulate_lagrange_shares,
}
use oprf_service.Core.Keygen.Dealing.{Dealer, poly_of, key_share}
use oprf_service.Core.Keygen.Encryption.{decrypt_share-gen_share}
use oprf_service.Types.Chain.{SecretGenCiphertext}
use oprf_service.KeyGen.Values.{full, shamir, decrypt_each, combine, decrypt_key_gen_ciphertexts}

-- A producer: what it deals, with its commitments, its private key and the nonce for the receiver.
pub record Producer (Fr Fq Affine : Type 0) : Type 0 where
  pub dealer : Dealer Fr
  pub comm_share : Affine
  pub comm_coeffs : Fq
  pub sk : Fr
  pub nonce : Fq

module _ {Fr Fq Affine : Type 0} ⦃S : Field Fr⦄ ⦃B : Field Fq⦄ (C : Suite Fr Fq Affine S) where
  open C use {generator, scale, point_discrete}

  abbrev pub dealt : Producer Fr Fq Affine → KeyGenPoly Fr Fq Affine
  dealt p = record {
    poly = poly_of p.dealer;
    comm_share = p.comm_share;
    comm_coeffs = p.comm_coeffs;
  }

  -- The ciphertexts for the party `id` with the private key `sk`.
  unfoldable pub sent_each :
      ℕ → Fr → List (Producer Fr Fq Affine) → Option (List (SecretGenCiphertext Fq Affine))
  sent_each id sk [] = some []
  sent_each id sk (p ∷ producers) = do
    sent ← gen_share C (dealt p) id p.sk (scale generator sk) p.nonce
    rest ← sent_each id sk producers
    some (
        record { nonce = sent.nonce; cipher = sent.ciphertext; commitment = sent.commitment }
        ∷ rest)

  abbrev pub keys_of : List (Producer Fr Fq Affine) → List Affine
  keys_of producers = map (λ p. scale generator p.sk) producers

  abbrev pub dealers_of : List (Producer Fr Fq Affine) → List (Dealer Fr)
  dealers_of producers = map (λ p. p.dealer) producers

  -- The shares that the producers deal to the party.
  abbrev pub dealt_shares : ℕ → List (Producer Fr Fq Affine) → List Fr
  dealt_shares id producers = map (λ d. eval (poly_of d) (S.of_ℕ (id + 1))) (dealers_of producers)

  opened :
      (sk : Fr) (pk : Affine) (o : Option (EncryptedShare Fq Affine)) (share : Fr) (comm : Affine)
      → (o >>= (λ sent.
          decrypt_share C sk pk sent.ciphertext sent.nonce
          >>= (λ share. let received : Fr × Affine = (share, sent.commitment) in some received)))
        ≡ some (share, comm)
      → (sent : EncryptedShare Fq Affine) × (o ≡ some sent)
        × (decrypt_share C sk pk sent.ciphertext sent.nonce ≡ some share)
        × (sent.commitment ≡ comm)
  opened sk pk none share comm e = absurd (cc e)
  opened sk pk (some sent) share comm e =
      go (decrypt_share C sk pk sent.ciphertext sent.nonce) refl e
    where
      go :
          (r : Option Fr)
          → decrypt_share C sk pk sent.ciphertext sent.nonce ≡ r
          → (r
              >>= (λ share. let received : Fr × Affine = (share, sent.commitment) in some received))
            ≡ some (share, comm)
          → (sent' : EncryptedShare Fq Affine) × (some sent ≡ some sent')
            × (decrypt_share C sk pk sent'.ciphertext sent'.nonce ≡ some share)
            × (sent'.commitment ≡ comm)
      go none q e = absurd (cc e)
      go (some x) q e = (sent, refl, q ∙ cc e, cc e)

  nth-middle :
      {A : Type 0} (before after : List A) (a : A)
      → get_elem? (before ++ a ∷ after) (length before) ≡ some a
  nth-middle [] after a = refl
  nth-middle (b ∷ before) after a = nth-middle before after a

  abbrev share_of : ℕ → Producer Fr Fq Affine → Fr
  share_of id p = eval (poly_of p.dealer) (S.of_ℕ (id + 1))

  -- The ciphertexts open to the shares, and their commitments fit.
  abbrev Opens :
      ℕ → Fr → List (Producer Fr Fq Affine) → List (SecretGenCiphertext Fq Affine) → Type 0
  Opens id sk [] [] = Unit
  Opens id sk [] (c ∷ ciphers) = ⊥
  Opens id sk (p ∷ producers) [] = ⊥
  Opens id sk (p ∷ producers) (c ∷ ciphers) =
      (decrypt_share C sk (scale generator p.sk) c.cipher c.nonce ≡ some (share_of id p))
      × (c.commitment ≡ scale generator (share_of id p))
      × Opens id sk producers ciphers

  sent_each-Opens :
      (id : ℕ) (sk : Fr) (producers : List (Producer Fr Fq Affine))
      → S.modulus ≤ B.modulus
      → (ciphers : List (SecretGenCiphertext Fq Affine)) × (sent_each id sk producers
          ≡ some ciphers)
        × Opens id sk producers ciphers
  unfolding sent_each
  sent_each-Opens id sk [] h = ([], refl, tt)
  sent_each-Opens id sk (p ∷ producers) h =
      let (sent, made, decrypted, comm) =
        opened sk (scale generator p.sk)
          (gen_share C (dealt p) id p.sk (scale generator sk) p.nonce) (share_of id p)
          (scale generator (share_of id p))
          (decrypt_share-gen_share C (dealt p) p.dealer.secret p.dealer.coeffs id p.sk sk p.nonce
            refl h) in
      let (ciphers, rest, opens) = sent_each-Opens id sk producers h in
      (
        record { nonce = sent.nonce; cipher = sent.ciphertext; commitment = sent.commitment }
            ∷ ciphers,
        rw (made, rest) refl,
        (decrypted, comm, opens),
      )

  decrypt_each-Opens :
      (id : ℕ) (sk : Fr) (before : List Affine) (producers : List (Producer Fr Fq Affine))
      (ciphers : List (SecretGenCiphertext Fq Affine)) (n : ℕ)
      → n ≡ length before
      → Opens id sk producers ciphers
      → decrypt_each C sk (before ++ keys_of producers) n ciphers
        ≡ some (ok (dealt_shares id producers))
  unfolding decrypt_each
  decrypt_each-Opens id sk before [] [] n e h = refl
  decrypt_each-Opens id sk before [] (c ∷ ciphers) n e h = absurd h
  decrypt_each-Opens id sk before (p ∷ producers) [] n e h = absurd h
  decrypt_each-Opens id sk before (p ∷ producers) (c ∷ ciphers) n e (opens, comm, h) =
      let pk = scale generator p.sk in
      let at : get_elem? (before ++ pk ∷ keys_of producers) n ≡ some pk =
        ap (get_elem? (before ++ pk ∷ keys_of producers)) e
        ∙ nth-middle before (keys_of producers) pk in
      let ih =
        decrypt_each-Opens id sk (before ++ pk ∷ []) producers ciphers (suc n)
          (ap suc e ∙ sym (length-append before (pk ∷ []) ∙ omega arith)) h in
      let rest : decrypt_each C sk (before ++ pk ∷ keys_of producers) (suc n) ciphers
          ≡ some (ok (dealt_shares id producers)) =
        subst (λ pks. decrypt_each C sk pks (suc n) ciphers ≡ some (ok (dealt_shares id producers)))
          (append_assoc before (pk ∷ []) (keys_of producers)) ih in
      rw
        (
          at,
          opens,
          if_pos (point_discrete (scale generator (share_of id p)) c.commitment) (sym comm),
          rest,
        )
        refl

  -- Producers send their shares to the party `id`, whose public key belongs to `sk`. It decrypts
  -- them with their public keys, and every commitment fits. In a key generation it gets the sum of
  -- its shares; in a resharing, with as many coefficients, the sum of its shares times these. The
  -- scalar field is no larger than the base field.
  pub decrypt_key_gen_ciphertexts-sent_each :
      (id : ℕ) (sk : Fr) (poly : Option (KeyGenPoly Fr Fq Affine)) (lagrange : List Fr)
      (producers : List (Producer Fr Fq Affine))
      → S.modulus ≤ B.modulus
      → length (dealt_shares id producers) ≡ length lagrange
      → (ciphers : List (SecretGenCiphertext Fq Affine)) × (sent_each id sk producers
          ≡ some ciphers)
        × (decrypt_key_gen_ciphertexts C ciphers
              (record { sk = sk; poly = poly })
              full
              (keys_of producers)
            ≡ some (ok (key_share (dealers_of producers) (S.of_ℕ (id + 1)))))
        × (decrypt_key_gen_ciphertexts C ciphers
              (record { sk = sk; poly = poly })
              (shamir lagrange)
              (keys_of producers)
            ≡ some (ok (dot S.zero (dealt_shares id producers) lagrange)))
  unfolding decrypt_key_gen_ciphertexts combine accumulate_lagrange_shares
  decrypt_key_gen_ciphertexts-sent_each id sk poly lagrange producers h l =
      let (ciphers, e, opens) = sent_each-Opens id sk producers h in
      let shares = decrypt_each-Opens id sk [] producers ciphers 0 refl opens in
      (ciphers, e, rw shares refl, rw (shares, (==_iff _ _).1 l) refl)
