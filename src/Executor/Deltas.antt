-- ===== src/Executor/Deltas.antt =====
-- The text of an item, which arrives in pieces that are mixed with those of other items.
use Prim.Native.String.{◌++◌}
use text.Mathlib.TextLemmas.{append-nil, append_assoc}
use codex_a2a.Base.{
  String, ◌≡◌, refl, sym, ap, ◌∙◌, Bool-cases, inl, inr, List, [], ◌∷◌, ◌==◌, ==_iff, ==_refl,
  if◌then◌else◌,
}
use codex_a2a.Base.Maps.{Map, lookup-insert, lookup_or}
use codex_a2a.Runtime.{
  TaskRuntime, append_text, append_assistant_text, assistant_text, append_command_output,
  command_output, append_file_change_diff, file_change_diff,
}

-- Pieces of text, each with the item it belongs to, in the order of their arrival.
abbrev pub Pieces : Type 0
Pieces = List (String × String)

abbrev pub pieces_of : String → Pieces → String
pieces_of item [] = ""
pieces_of item ((i, delta) ∷ ps) = (if i == item then delta else "") ++ pieces_of item ps

abbrev pub receive_pieces :
    (String → String → TaskRuntime → TaskRuntime) → Pieces → TaskRuntime → TaskRuntime
receive_pieces add [] t = t
receive_pieces add ((i, delta) ∷ ps) t = receive_pieces add ps (add i delta t)

lookup-append_text :
    (item i delta : String) (m : Map String)
    → lookup_or "" item (append_text i delta m)
      ≡ lookup_or "" item m ++ (if i == item then delta else "")
unfolding append_text
lookup-append_text item i delta m = elim (Bool-cases (i == item)) [
  | inl q ↦ rw ((==_iff i item).0 q, lookup-insert, ==_refl item) refl
  | inr q ↦ rw (lookup-insert, q) (sym (append-nil _))
]

module _ (add : String → String → TaskRuntime → TaskRuntime)
    (read : String → TaskRuntime → String) where
  received :
      ((item i delta : String) (t : TaskRuntime)
        → read item (add i delta t) ≡ read item t ++ (if i == item then delta else ""))
      → (item : String) (ps : Pieces) (t : TaskRuntime)
      → read item (receive_pieces add ps t) ≡ read item t ++ pieces_of item ps
  received step item [] t = sym (append-nil _)
  received step item ((i, delta) ∷ ps) t =
      received step item ps (add i delta t)
      ∙ ap (λ s. s ++ pieces_of item ps) (step item i delta t)
      ∙ append_assoc _ _ _

-- Whatever pieces of other items arrive in between, the text of an assistant message, the output of
-- a command and the diff of a file change are what was there before, followed by the item's own
-- pieces in the order of their arrival.
pub pieces-append :
    (item : String) (ps : Pieces) (t : TaskRuntime)
    → (assistant_text item (receive_pieces append_assistant_text ps t)
        ≡ assistant_text item t ++ pieces_of item ps)
      × (command_output item (receive_pieces append_command_output ps t)
          ≡ command_output item t ++ pieces_of item ps)
      × (file_change_diff item (receive_pieces append_file_change_diff ps t)
          ≡ file_change_diff item t ++ pieces_of item ps)
unfolding assistant_text append_assistant_text command_output append_command_output file_change_diff
    append_file_change_diff
pieces-append item ps t = (
  received append_assistant_text assistant_text
      (λ item i delta t. lookup-append_text item i delta t.assistant_texts) item ps t,
  received append_command_output command_output
      (λ item i delta t. lookup-append_text item i delta t.command_outputs) item ps t,
  received append_file_change_diff file_change_diff
      (λ item i delta t. lookup-append_text item i delta t.file_change_diffs) item ps t,
)
