-- ===== src/Client/Telling.antt =====
-- The failures of the reference server say something.
use ai_agents.Prelude.{
  ◌≡◌, refl, String, Bool, true, Option, none, some, List, [], ◌∷◌, ◌++◌, contains, string_eq,
  Bool-cases, inl, inr,
}
use ai_agents.Prelude.Exec.{Result, ok, err, or_raise, continue, pure, lift, ◌>>=◌}
use ai_agents.Dict.{lookup}
use ai_agents.Text.{Unicode, is_space, strip_right}
use ai_agents.Protocol.MailCodes.{MailServerError, not_found_error, server_text}
use ai_agents.Wire.{Message, Label, require_deletable}
use ai_agents.Reference as R
use ai_agents.Reference.{InMemoryMailbox, Action}
use ai_agents.Reference.Tools.{
  ToolCall, search_mail, get_mail, get_conversation, labels_of_mailbox, save_draft, send_mail,
  mark_read, archive_mail, attach_label, detach_label, make_label, drop_label, mail, conversation,
  made, acknowledged, answer,
}
use Prim.Native.String.{◌++◌ as str_append}
use ai_agents.Client.{not_served}
use ai_agents.Client.Trimming.{is_telling, telling-append}

module _ (un : Unicode) where
  -- The text of the failure is not all white space.
  abbrev pub IsTelling : MailServerError → Type 0
  IsTelling e = is_telling (server_text un e) ≡ true

  pub not_found-IsTelling :
      (resource identifier : String) → IsTelling (not_found_error resource identifier)
  unfolding server_text is_space strip_right
  not_found-IsTelling resource identifier =
      let end : String = str_append (un.repr identifier) " was not found" in
      telling-append resource (str_append " " end)
        (telling-append " " end (telling-append (un.repr identifier) " was not found" refl))

  pub not_served-IsTelling : (owner : String) → IsTelling (not_served un owner)
  unfolding server_text is_space strip_right
  not_served-IsTelling owner =
      telling-append "mailbox of " (str_append (un.repr owner) " is not served here")
        (telling-append (un.repr owner) " is not served here" refl)

  abbrev pub TellsOf : {A : Type 0} → Result MailServerError A → Type 0
  TellsOf (ok a) = Unit
  TellsOf (err e) = IsTelling e

  -- An action whose failures say something.
  abbrev pub Tells : {A : Type 0} → Action A → Type 0
  Tells m = (box : InMemoryMailbox) → TellsOf (m box).0

  module _ {A B : Type 0} (m : Action A) (k : A → Action B) where
    Tells-continue :
        ((a : A) → Tells (k a))
        → (box : InMemoryMailbox) (r : Result MailServerError A × InMemoryMailbox) → TellsOf r.0
        → TellsOf (continue m k box r).0
    Tells-continue h box (ok a, s) t = h a s
    Tells-continue h box (err e, s) t = t

    Tells->>= : Tells m → ((a : A) → Tells (k a)) → Tells (m >>= k)
    Tells->>= first rest box = Tells-continue rest box (m box) (first box)

  Tells-or_raise :
      {A : Type 0} (o : Option A) (e : MailServerError) → IsTelling e → Tells (or_raise o e)
  Tells-or_raise none e h box = h
  Tells-or_raise (some a) e h box = tt

  require-Tells : (i : String) → Tells (R.require i)
  unfolding R.require
  require-Tells i box =
      Tells-or_raise (lookup i box.messages) _ (not_found-IsTelling "message" i) box

  require_label-Tells : (l : String) → Tells (R.require_label l)
  unfolding R.require_label
  require_label-Tells l box = Tells-or_raise _ _ (not_found-IsTelling "label" l) box

  replace-Tells : (m : Message) → Tells (R.replace m)
  unfolding R.replace
  replace-Tells m box = tt

  set_read_state-Tells : (i : String) (b : Bool) → Tells (R.set_read_state i b)
  unfolding R.set_read_state
  set_read_state-Tells i b =
      Tells->>= (R.require i) (λ (m : Message). R.replace (record m { is_read = b }))
        (require-Tells i) (λ m. replace-Tells (record m { is_read = b }))

  archive-Tells : (i : String) → Tells (R.archive i)
  unfolding R.archive
  archive-Tells i =
      Tells->>= (R.require i) (λ (m : Message). R.replace (record m { is_archived = true }))
        (require-Tells i) (λ m. replace-Tells (record m { is_archived = true }))

  add_to-Tells : (l : String) (m : Message) → Tells (R.add_to l m)
  add_to-Tells l m box = elim (Bool-cases (contains l m.label_ids)) [
    | inl there ↦ rw there tt
    | inr new ↦ rw new (replace-Tells (record m { label_ids = m.label_ids ++ l ∷ [] }) box)
  ]

  apply_label-Tells : (i l : String) → Tells (R.apply_label i l)
  unfolding R.apply_label
  apply_label-Tells i l =
      Tells->>= (R.require_label l) (λ _. R.require i >>= λ m. R.add_to l m) (require_label-Tells l)
        (λ _. Tells->>= (R.require i) (λ m. R.add_to l m) (require-Tells i) (add_to-Tells l))

  remove_label-Tells : (i l : String) → Tells (R.remove_label i l)
  unfolding R.remove_label
  remove_label-Tells i l =
      Tells->>= (R.require_label l) (λ _. R.require i >>= λ m. R.replace (R.unlabelled l m))
        (require_label-Tells l)
        (λ _.
          Tells->>= (R.require i) (λ m. R.replace (R.unlabelled l m)) (require-Tells i)
            (λ m. replace-Tells (R.unlabelled l m)))

  require_deletable-Tells : (l : Label) → Tells (lift (require_deletable un l))
  unfolding require_deletable server_text is_space strip_right
  require_deletable-Tells l box = elim (Bool-cases l.is_system) [
    | inl system ↦ rw system (
        telling-append "label "
          (str_append (un.repr l.name) " is a system label and cannot be deleted")
          (telling-append (un.repr l.name) " is a system label and cannot be deleted" refl))
    | inr own ↦ rw own tt
  ]

  delete_label-Tells : (l : String) → Tells (R.delete_label un l)
  unfolding R.delete_label
  delete_label-Tells l =
      Tells->>= (R.require_label l) (R.delete_required un l) (require_label-Tells l) (λ x.
        Tells->>= (lift (require_deletable un x)) (λ _. R.detach_everywhere l)
          (require_deletable-Tells x) (λ _ box. tt))

  give_or_make-Tells : (name : String) (o : Option Label) → Tells (R.give_or_make un name o)
  give_or_make-Tells name none box = tt
  give_or_make-Tells name (some l) box = tt

  create_label-Tells : (name : String) → Tells (R.create_label un name)
  unfolding R.create_label
  create_label-Tells name box = give_or_make-Tells name (R.label_called un name box) box

  titled-Tells : (i : String) (ms : List Message) → TellsOf (R.titled_by_first i ms)
  titled-Tells i [] = not_found-IsTelling "thread" i
  titled-Tells i (m ∷ ms) = tt

  get_thread-Tells : (i : String) → Tells (R.get_thread i)
  unfolding R.get_thread
  get_thread-Tells i box = titled-Tells i _

  pub answer-Tells : (c : ToolCall) → Tells (answer un c)
  unfolding answer R.search R.list_labels R.create_draft R.send
  answer-Tells (search_mail s) = λ box. tt
  answer-Tells (get_mail i) =
      Tells->>= (R.require i) (λ m. pure (mail m)) (require-Tells i) (λ _ box. tt)
  answer-Tells (get_conversation i) =
      Tells->>= (R.get_thread i) (λ t. pure (conversation t)) (get_thread-Tells i) (λ _ box. tt)
  answer-Tells labels_of_mailbox = λ box. tt
  answer-Tells (save_draft fresh d) = λ box. tt
  answer-Tells (send_mail fresh now d) = λ box. tt
  answer-Tells (mark_read i b) =
      Tells->>= (R.set_read_state i b) (λ _. pure acknowledged) (set_read_state-Tells i b)
        (λ _ box. tt)
  answer-Tells (archive_mail i) =
      Tells->>= (R.archive i) (λ _. pure acknowledged) (archive-Tells i) (λ _ box. tt)
  answer-Tells (attach_label i l) =
      Tells->>= (R.apply_label i l) (λ _. pure acknowledged) (apply_label-Tells i l) (λ _ box. tt)
  answer-Tells (detach_label i l) =
      Tells->>= (R.remove_label i l) (λ _. pure acknowledged) (remove_label-Tells i l) (λ _ box. tt)
  answer-Tells (make_label name) =
      Tells->>= (R.create_label un name) (λ o. pure (made o)) (create_label-Tells name)
        (λ _ box. tt)
  answer-Tells (drop_label l) =
      Tells->>= (R.delete_label un l) (λ _. pure acknowledged) (delete_label-Tells l) (λ _ box. tt)
