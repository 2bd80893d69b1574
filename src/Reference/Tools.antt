-- ===== src/Reference/Tools.antt =====
-- The mail tools of mcp-servers/protocol/src/mail_mcp/protocol/serving.py, over the mailbox of the
-- reference server.
use ai_agents.Prelude.{ℕ, String, Bool}
use ai_agents.Prelude.Exec.{pure, ◌>>=◌}
use ai_agents.Text.{Unicode}
use ai_agents.Wire.{Message, Thread, SearchResult, Draft, SendResult, Labels, CreatedLabel}
use ai_agents.Reference.Query.{Search}
use ai_agents.Reference.{
  Action, search, require, get_thread, list_labels, create_draft, send, set_read_state, archive,
  apply_label, remove_label, create_label, delete_label,
}

-- The calls, with the choices of the environment: `fresh` names and the time.
pub data ToolCall : Type 0 where
  search_mail : Search → ToolCall
  get_mail get_conversation : String → ToolCall
  labels_of_mailbox : ToolCall
  save_draft : String → Draft → ToolCall
  send_mail : String → ℕ → Draft → ToolCall
  mark_read : String → Bool → ToolCall
  archive_mail : String → ToolCall
  attach_label detach_label : String → String → ToolCall
  make_label : String → ToolCall
  drop_label : String → ToolCall

-- What a tool answers with.
pub data Answer : Type 0 where
  hits : SearchResult → Answer
  mail : Message → Answer
  conversation : Thread → Answer
  label_list : Labels → Answer
  saved : Draft → Answer
  delivered : SendResult → Answer
  made : CreatedLabel → Answer
  acknowledged : Answer

abbrev pub answer_with : {A : Type 0} → (A → Answer) → Action A → Action Answer
answer_with f m = m >>= λ a. pure (f a)

-- The body of each tool, on the mailbox that the directory resolved.
unfoldable pub answer : Unicode → ToolCall → Action Answer
answer un (search_mail s) = answer_with hits (search un s)
answer un (get_mail i) = answer_with mail (require i)
answer un (get_conversation i) = answer_with conversation (get_thread i)
answer un labels_of_mailbox = answer_with label_list list_labels
answer un (save_draft fresh d) = answer_with saved (create_draft fresh d)
answer un (send_mail fresh now d) = answer_with delivered (send fresh now d)
answer un (mark_read i b) = answer_with (λ _. acknowledged) (set_read_state i b)
answer un (archive_mail i) = answer_with (λ _. acknowledged) (archive i)
answer un (attach_label i l) = answer_with (λ _. acknowledged) (apply_label i l)
answer un (detach_label i l) = answer_with (λ _. acknowledged) (remove_label i l)
answer un (make_label name) = answer_with made (create_label un name)
answer un (drop_label l) = answer_with (λ _. acknowledged) (delete_label un l)
