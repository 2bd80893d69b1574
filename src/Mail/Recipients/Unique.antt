-- ===== src/Mail/Recipients/Unique.antt =====
-- What `_unique` collects.
use ai_agents.Prelude.{
  ◌≡◌, refl, ◌∙◌, ap, String, not, ◌&&◌, ◌||◌, List, [], ◌∷◌, arith, string_eq, contains, IsNodup,
  Bool-cases, inl, inr, eq_iff,
}
use ai_agents.Dict.{Dict, keys, values, set_default, contains-keys-set_default, IsNodup-set_default}
use ai_agents.Dict.Values.{IsKeyed, IsKeyed-insert}
use ai_agents.Mail.Models.{EmailAddress, MailParticipant, address_eq, address_beq_iff}
use ai_agents.Mail.Recipients.{unique_from, unique}

abbrev address_key : EmailAddress → String
address_key a = a.value

abbrev pub addresses : {U : Type 0} → List (MailParticipant U) → List EmailAddress
addresses [] = []
addresses (p ∷ ps) = p.address ∷ addresses ps

contains-values :
    (a : EmailAddress) (d : Dict String EmailAddress)
    → IsKeyed address_key d
    → contains a (values d) ≡ contains a.value (keys d)
contains-values a [] h = refl
contains-values a ((k, v) ∷ d) h = rw (h.0, contains-values a d h.1) refl

IsNodup-values :
    (d : Dict String EmailAddress) → IsKeyed address_key d → IsNodup (keys d) → IsNodup (values d)
IsNodup-values [] h n = tt
IsNodup-values ((k, v) ∷ d) h n =
    (contains-values v d h.1 ∙ ap (λ k. contains k (keys d)) h.0 ∙ n.0, IsNodup-values d h.1 n.1)

IsKeyed-set_default :
    (a : EmailAddress) (d : Dict String EmailAddress)
    → IsKeyed address_key d
    → IsKeyed address_key (set_default a.value a d)
unfolding set_default
IsKeyed-set_default a d h = ground (arith, IsKeyed-insert address_key a d h)

module _ {U : Type 0} where
  keys-unique_from :
      (a : EmailAddress) (ps : List (MailParticipant U)) (exclude : List EmailAddress)
      (d : Dict String EmailAddress)
      → contains a.value (keys (unique_from ps exclude d))
        ≡ (contains a.value (keys d) || (contains a (addresses ps) && not (contains a exclude)))
  unfolding unique_from
  keys-unique_from a [] exclude d = ground arith
  keys-unique_from a (p ∷ ps) exclude d = elim (Bool-cases (contains p.address exclude)) [
    | inl out ↦ rw out (
        ground (
          arith,
          keys-unique_from a ps exclude d,
          out,
          address_beq_iff a p.address,
          eq_iff a.value p.address.value,
        ))
    | inr kept ↦ rw kept (
        ground (
          arith,
          kept,
          keys-unique_from a ps exclude (set_default p.address.value p.address d),
          contains-keys-set_default p.address.value a.value p.address d,
          address_beq_iff a p.address,
        ))
  ]

  unique_from-IsKeyed :
      (ps : List (MailParticipant U)) (exclude : List EmailAddress) (d : Dict String EmailAddress)
      → IsKeyed address_key d
      → IsKeyed address_key (unique_from ps exclude d)
  unfolding unique_from
  unique_from-IsKeyed [] exclude d h = h
  unique_from-IsKeyed (p ∷ ps) exclude d h = elim (Bool-cases (contains p.address exclude)) [
    | inl out ↦ rw out (unique_from-IsKeyed ps exclude d h)
    | inr kept ↦ rw kept (
        unique_from-IsKeyed ps exclude (set_default p.address.value p.address d)
          (IsKeyed-set_default p.address d h))
  ]

  unique_from-IsNodup :
      (ps : List (MailParticipant U)) (exclude : List EmailAddress) (d : Dict String EmailAddress)
      → IsNodup (keys d)
      → IsNodup (keys (unique_from ps exclude d))
  unfolding unique_from
  unique_from-IsNodup [] exclude d h = h
  unique_from-IsNodup (p ∷ ps) exclude d h = elim (Bool-cases (contains p.address exclude)) [
    | inl out ↦ rw out (unique_from-IsNodup ps exclude d h)
    | inr kept ↦ rw kept (
        unique_from-IsNodup ps exclude (set_default p.address.value p.address d)
          (IsNodup-set_default p.address.value p.address d h))
  ]

  -- The collected addresses are those of the participants, less the excluded ones.
  pub contains-unique :
      (a : EmailAddress) (ps : List (MailParticipant U)) (exclude : List EmailAddress)
      → contains a (unique ps exclude) ≡ (contains a (addresses ps) && not (contains a exclude))
  unfolding unique
  contains-unique a ps exclude =
      contains-values a (unique_from ps exclude []) (unique_from-IsKeyed ps exclude [] tt)
      ∙ keys-unique_from a ps exclude []

  -- No address is collected twice.
  pub unique-IsNodup :
      (ps : List (MailParticipant U)) (exclude : List EmailAddress) → IsNodup (unique ps exclude)
  unfolding unique
  unique-IsNodup ps exclude =
      IsNodup-values (unique_from ps exclude []) (unique_from-IsKeyed ps exclude [] tt)
        (unique_from-IsNodup ps exclude [] tt)
