-- ===== src/Reference/Refinement/Sound.antt =====
-- The invariant of the reference server's mailbox, and that every tool keeps it.
use ai_agents.Prelude.{
  ℕ, suc, length, length-map, ◌≡◌, refl, ◌∙◌, String, Bool, true, false, not, Option, none, some,
  List, [], ◌∷◌, ◌++◌, map, string_eq, IsNodup, contains, contains-append, arith, eq_iff,
  Bool-cases, inl, inr, select, ◌==◌,
}
use ai_agents.Prelude.Naturality.{map-append}
use ai_agents.Prelude.Exec.{Result, ok, err, or_raise, continue, lift, ◌>>=◌}
use ai_agents.Prelude.Search.{first_free, first_free-not_taken}
use ai_agents.Mail.Mailbox.{suffixed}
use ai_agents.Mail.Mailbox.Minting.{suffixed_inj}
use ai_agents.Dict.{keys, values, insert, lookup, IsNodup-insert}
use ai_agents.Dict.Values.{IsKeyed, IsKeyed-insert, rewrite_where}
use ai_agents.Text.{Unicode}
use ai_agents.Protocol.MailCodes.{MailServerError}
use ai_agents.Wire.{Message, Label, require_deletable}
use ai_agents.Reference.{
  InMemoryMailbox, Action, mint, numbered, label_id_of, give_or_make, create_label, label_called,
  message_key, label_key, replace, require, require_label, set_read_state, archive, apply_label,
  add_to, remove_label, unlabelled, carries, detach_everywhere, delete_required, delete_label,
}

-- Each message stands once, under its own identifier, and no two labels share theirs.
pub record IsSound (box : InMemoryMailbox) : Type 0 where
  pub messages_nodup : IsNodup (keys box.messages)
  pub messages_keyed : IsKeyed message_key box.messages
  pub labels_nodup : IsNodup (map label_key box.labels)

-- An action that leaves a sound mailbox sound.
abbrev pub Keeps : {A : Type 0} → Action A → Type 0
Keeps m = (box : InMemoryMailbox) → IsSound box → IsSound (m box).1

module _ {A B : Type 0} (m : Action A) (k : A → Action B) where
  Keeps-continue :
      ((a : A) → Keeps (k a))
      → (box : InMemoryMailbox) (r : Result MailServerError A × InMemoryMailbox) → IsSound r.1
      → IsSound (continue m k box r).1
  Keeps-continue h box (ok a, s) v = h a s v
  Keeps-continue h box (err e, s) v = v

  pub Keeps->>= : Keeps m → ((a : A) → Keeps (k a)) → Keeps (m >>= k)
  Keeps->>= first rest box v = Keeps-continue rest box (m box) (first box v)

pub Keeps-or_raise : {A : Type 0} (o : Option A) (e : MailServerError) → Keeps (or_raise o e)
Keeps-or_raise none e box v = v
Keeps-or_raise (some a) e box v = v

pub require-Keeps : (i : String) → Keeps (require i)
unfolding require
require-Keeps i box v = Keeps-or_raise (lookup i box.messages) _ box v

require_label-Keeps : (i : String) → Keeps (require_label i)
unfolding require_label
require_label-Keeps i box v = Keeps-or_raise _ _ box v

replace-Keeps : (m : Message) → Keeps (replace m)
unfolding replace
replace-Keeps m box v = record {
  messages_nodup = IsNodup-insert m.message_id m box.messages v.messages_nodup;
  messages_keyed = IsKeyed-insert message_key m box.messages v.messages_keyed;
  labels_nodup = v.labels_nodup;
}

pub set_read_state-Keeps : (i : String) (b : Bool) → Keeps (set_read_state i b)
unfolding set_read_state
set_read_state-Keeps i b =
    Keeps->>= (require i) (λ (m : Message). replace (record m { is_read = b })) (require-Keeps i)
      (λ m. replace-Keeps (record m { is_read = b }))

pub archive-Keeps : (i : String) → Keeps (archive i)
unfolding archive
archive-Keeps i =
    Keeps->>= (require i) (λ (m : Message). replace (record m { is_archived = true }))
      (require-Keeps i) (λ m. replace-Keeps (record m { is_archived = true }))

add_to-Keeps : (l : String) (m : Message) → Keeps (add_to l m)
add_to-Keeps l m box v = elim (Bool-cases (contains l m.label_ids)) [
  | inl there ↦ rw there v
  | inr new ↦ rw new (replace-Keeps (record m { label_ids = m.label_ids ++ l ∷ [] }) box v)
]

pub apply_label-Keeps : (i l : String) → Keeps (apply_label i l)
unfolding apply_label
apply_label-Keeps i l =
    Keeps->>= (require_label l) (λ _. require i >>= λ m. add_to l m) (require_label-Keeps l)
      (λ _. Keeps->>= (require i) (λ m. add_to l m) (require-Keeps i) (add_to-Keeps l))

pub remove_label-Keeps : (i l : String) → Keeps (remove_label i l)
unfolding remove_label
remove_label-Keeps i l =
    Keeps->>= (require_label l) (λ _. require i >>= λ m. replace (unlabelled l m))
      (require_label-Keeps l)
      (λ _.
        Keeps->>= (require i) (λ m. replace (unlabelled l m)) (require-Keeps i)
          (λ m. replace-Keeps (unlabelled l m)))

IsNodup-select :
    (p : Label → Bool) (ls : List Label)
    → IsNodup (map label_key ls)
    → IsNodup (map label_key (select p ls))
IsNodup-select p [] h = tt
IsNodup-select p (l ∷ ls) h = elim (Bool-cases (p l)) [
  | inl kept ↦ rw kept (contains-select p l.label_id ls h.0, IsNodup-select p ls h.1)
  | inr out ↦ rw out (IsNodup-select p ls h.1)
]
  where
    contains-select :
        (q : Label → Bool) (i : String) (xs : List Label)
        → contains i (map label_key xs) ≡ false
        → contains i (map label_key (select q xs)) ≡ false
    contains-select q i [] e = refl
    contains-select q i (x ∷ xs) e = ground (arith, contains-select q i xs)

-- The loop of a deletion writes messages under their own identifiers.
rewrite_where-Keeps :
    (test : Message → Bool) (f : Message → Message) (ms : List Message) (box : InMemoryMailbox)
    → IsSound box
    → IsSound (record box { messages = rewrite_where message_key test f ms box.messages })
unfolding insert replace
rewrite_where-Keeps test f [] box v = v
rewrite_where-Keeps test f (m ∷ ms) box v = elim (Bool-cases (test m)) [
  | inl hit ↦
      rw hit (rewrite_where-Keeps test f ms (replace (f m) box).1 (replace-Keeps (f m) box v))
  | inr miss ↦ rw miss (rewrite_where-Keeps test f ms box v)
]

detach_everywhere-Keeps : (l : String) → Keeps (detach_everywhere l)
detach_everywhere-Keeps l box v =
    let left : List Label = select (λ (x : Label). not (x.label_id == l)) box.labels in
    rewrite_where-Keeps (carries l) (unlabelled l) (values box.messages)
      (record box { labels = left })
      (record {
        messages_nodup = v.messages_nodup;
        messages_keyed = v.messages_keyed;
        labels_nodup =
            IsNodup-select (λ (x : Label). not (x.label_id == l)) box.labels v.labels_nodup;
      })

lift-Keeps : {A : Type 0} (r : Result MailServerError A) → Keeps (lift r)
lift-Keeps r box v = v

pub delete_label-Keeps : (un : Unicode) (l : String) → Keeps (delete_label un l)
unfolding delete_label
delete_label-Keeps un l =
    Keeps->>= (require_label l) (delete_required un l) (require_label-Keeps l) (λ x.
      Keeps->>= (lift (require_deletable un x)) (λ _. detach_everywhere l)
        (lift-Keeps (require_deletable un x)) (λ _. detach_everywhere-Keeps l))

numbered_inj : (c : String) (m n : ℕ) → numbered c m ≡ numbered c n → m ≡ n
unfolding numbered suffixed
numbered_inj c m n same = suffixed_inj c m n same

module _ (un : Unicode) (name : String) (box : InMemoryMailbox) where
  abbrev taken : List String
  taken = map label_key box.labels

  free_number :
      (c : String)
      → contains
          (numbered c (first_free (suc (length box.labels)) (λ s. contains (numbered c s) taken) 2))
          taken
        ≡ false
  free_number c =
      first_free-not_taken (numbered c) (numbered_inj c) (suc (length box.labels)) 2 taken
        (omega (arith, length-map box.labels label_key))

  -- The server mints an identifier that no label of its mailbox has.
  pub mint-is_new : contains (mint un name box) taken ≡ false
  unfolding mint
  mint-is_new = elim (Bool-cases (contains (label_id_of un name) taken)) [
    | inl used ↦ rw used (free_number (label_id_of un name))
    | inr free ↦ rw free free
  ]

IsNodup-last :
    (ls : List String) (i : String) → IsNodup ls → contains i ls ≡ false → IsNodup (ls ++ i ∷ [])
IsNodup-last [] i h fresh = (refl, tt)
IsNodup-last (x ∷ ls) i h fresh = (
  contains-append x ls (i ∷ []) ∙ ground (arith, h.0, eq_iff x i, eq_iff i x),
  IsNodup-last ls i h.1 (ground arith),
)

give_or_make-Keeps :
    (un : Unicode) (name : String) (o : Option Label) → Keeps (give_or_make un name o)
give_or_make-Keeps un name (some l) box v = v
give_or_make-Keeps un name none box v =
    let l : Label = record { label_id = mint un name box; name = name; is_system = false } in
    record {
      messages_nodup = v.messages_nodup;
      messages_keyed = v.messages_keyed;
      labels_nodup =
          rw (map-append label_key box.labels (l ∷ []))
            (IsNodup-last (taken un name box) l.label_id v.labels_nodup (mint-is_new un name box));
    }

pub create_label-Keeps : (un : Unicode) (name : String) → Keeps (create_label un name)
unfolding create_label
create_label-Keeps un name box v = give_or_make-Keeps un name (label_called un name box) box v
