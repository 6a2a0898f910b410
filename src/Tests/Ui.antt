-- ===== src/Tests/Ui.antt =====
-- The theorem on the history panel of crates/pb-ui at a concrete run.
use dev_browse.Prelude.{ℕ, Bool, true, ◌≡◌, refl, Option, some, List, [], ◌∷◌}
use dev_browse.Prelude.Text.{bytes}
use dev_browse.Ui.History.{
  HistoryEntry, HistoryMsg, entries_loaded, search_changed, focus_down, focus_delete, entry_deleted,
  filtered, visible_count_of, nth, shown_rows, storage_corrupted, new, update,
}
use dev_browse.Ui.History.Focus.{run}

abbrev visit : ℕ → HistoryEntry
visit n = record {
  id = n;
  title = bytes "News";
  domain = bytes "a.b";
  url = bytes "https://a.b/";
  timestamp_ms = n;
}

abbrev messages : List (ℕ × HistoryMsg)
messages =
    (1, entries_loaded (visit 1 ∷ visit 2 ∷ []))
    ∷ (2, search_changed (bytes "NEW"))
    ∷ (3, focus_down)
    ∷ (4, focus_down)
    ∷ []

-- With the warning of corruption on the screen, no row is shown and the focused entry is deleted.
hidden_row :
    let p = (update 4 storage_corrupted (run messages (new true 0))).0 in
    (shown_rows p ≡ []) × ((update 5 focus_delete p).1 ≡ some (entry_deleted 2))
unfolding run update visible_count_of filtered dev_browse.Prelude.filter shown_rows nth
    dev_browse.Ui.History.matches dev_browse.Network.Blocklist.Rule.to_ascii_lowercase
    dev_browse.Config.Loader.contains_str
hidden_row = (refl, refl)
