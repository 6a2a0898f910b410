-- ===== src/Ui/History/Focus.antt =====
-- The focused row of the history panel, after any messages.
use dev_browse.Prelude.{ℕ, ◌<◌, List, [], ◌∷◌, Option, none, some}
use dev_browse.Ui.History.{HistoryMsg, HistoryPanel, visible_count_of, update}

-- The focused row is one of the rows of the filtered list.
abbrev pub Within : Option ℕ → ℕ → Type 0
Within none n = Unit
Within (some i) n = i < n

module _ {R : Type 0} where
  abbrev pub FocusOk : HistoryPanel R → Type 0
  FocusOk p = Within p.focused_row (visible_count_of p.search_query p.entries)

  unfoldable pub run : List (ℕ × HistoryMsg) → HistoryPanel R → HistoryPanel R
  run [] p = p
  run ((now, msg) ∷ msgs) p = run msgs (update now msg p).0
