-- ===== src/Ui/History.antt =====
-- crates/pb-ui/src/history.rs: the history panel and its `update`. Texts are lists of bytes; the clock
-- is an argument, in milliseconds, and so is the retention setting, which is only stored. The groups by
-- day and the drawing are left out.
pub mod Focus
use dev_browse.Prelude.{
  ℕ, suc, ◌+◌, ◌-◌, ◌%◌, min, Bool, true, false, not, ◌||◌, List, [], ◌∷◌, Option, none, some, ltb,
  ◌==◌, if◌then◌else◌, is_empty, length, filter,
}
use dev_browse.Config.Loader.{contains_str}
use dev_browse.Network.Blocklist.Rule.{to_ascii_lowercase}

pub record HistoryEntry : Type 0 where
  pub id : ℕ
  pub title : List ℕ
  pub domain : List ℕ
  pub url : List ℕ
  pub timestamp_ms : ℕ

pub data HistoryPhase : Type 0 where
  loading empty populated searching clearing load_error corrupted_warning : HistoryPhase

pub data HistoryEvent : Type 0 where
  navigate navigate_new_tab navigate_strict_tab : List ℕ → HistoryEvent
  entry_deleted : ℕ → HistoryEvent
  all_cleared : HistoryEvent

pub data HistoryMsg : Type 0 where
  opened closed : HistoryMsg
  entries_loaded : List HistoryEntry → HistoryMsg
  load_failed storage_corrupted : HistoryMsg
  search_changed : List ℕ → HistoryMsg
  entry_open entry_open_new_tab entry_open_strict_tab entry_delete : ℕ → HistoryMsg
  focus_up focus_down focus_activate focus_delete : HistoryMsg
  clear_requested clear_confirmed clear_cancelled clear_failed : HistoryMsg

pub record HistoryPanel (R : Type 0) : Type 0 where
  pub is_open : Bool
  pub phase : HistoryPhase
  pub entries : List HistoryEntry
  pub search_query : List ℕ
  pub focused_row : Option ℕ
  pub retention : R
  pub now_ms : ℕ

unfoldable pub matches : List ℕ → HistoryEntry → Bool
matches q e =
    is_empty q
    || contains_str q (to_ascii_lowercase e.title)
    || contains_str q (to_ascii_lowercase e.domain)

unfoldable pub filtered : List ℕ → List HistoryEntry → List HistoryEntry
filtered query entries = filter (matches (to_ascii_lowercase query)) entries

unfoldable pub visible_count_of : List ℕ → List HistoryEntry → ℕ
visible_count_of query entries = length (filtered query entries)

-- `iter().find(|e| e.id == id)` and `retain(|e| e.id != id)`.
unfoldable pub find_id : ℕ → List HistoryEntry → Option HistoryEntry
find_id id [] = none
find_id id (e ∷ es) = if e.id == id then some e else find_id id es

unfoldable pub without_id : ℕ → List HistoryEntry → List HistoryEntry
without_id id entries = filter (λ e. not (e.id == id)) entries

-- `Iterator::nth`.
unfoldable pub nth : ℕ → List HistoryEntry → Option HistoryEntry
nth n [] = none
nth n (e ∷ es) = let rest = nth (n - 1) es in if n == 0 then some e else rest

unfoldable pub phase_of : List HistoryEntry → List ℕ → HistoryPhase
phase_of entries query =
    if is_empty entries then empty else if is_empty query then populated else searching

abbrev pub phase_clear : HistoryPhase → HistoryPhase
phase_clear populated = clearing
phase_clear searching = clearing
phase_clear phase = phase

-- The phases in which `panel_content` shows the list; in the others it shows a message or the dialog.
abbrev pub lists_rows : HistoryPhase → Bool
lists_rows populated = true
lists_rows searching = true
lists_rows _ = false

abbrev pub url_event : (List ℕ → HistoryEvent) → Option HistoryEntry → Option HistoryEvent
url_event event none = none
url_event event (some e) = some (event e.url)

abbrev pub up_from : Option ℕ → ℕ → ℕ
up_from none len = len - 1
up_from (some i) len = if i == 0 then len - 1 else i - 1

abbrev pub down_from : Option ℕ → ℕ → ℕ
down_from none len = 0
down_from (some i) len = (i + 1) % len

-- The rows that are left after `FocusDelete`, and the focus in them.
abbrev pub focus_left : ℕ → ℕ → Option ℕ
focus_left idx len = if len == 0 then none else some (min idx (len - 1))

module _ {R : Type 0} where
  unfoldable pub new : R → ℕ → HistoryPanel R
  new retention now = record {
    is_open = false;
    phase = loading;
    entries = [];
    search_query = [];
    focused_row = none;
    retention = retention;
    now_ms = now;
  }

  abbrev pub recompute_phase : HistoryPanel R → HistoryPhase
  recompute_phase p = phase_of p.entries p.search_query

  -- The rows that the view shows, over all groups by day, from top to bottom.
  unfoldable pub shown_rows : HistoryPanel R → List HistoryEntry
  shown_rows p = if lists_rows p.phase then filtered p.search_query p.entries else []

  -- `Closed` leaves the dialog of `Clearing`.
  abbrev pub phase_closed : HistoryPhase → HistoryPanel R → HistoryPhase
  phase_closed clearing p = phase_of p.entries []
  phase_closed phase p = phase

  abbrev pub focus_at : HistoryPanel R → (Option ℕ → ℕ → ℕ) → HistoryPanel R
  focus_at p f =
      let len = visible_count_of p.search_query p.entries in
      if ltb 0 len then record p { focused_row = some (f p.focused_row len) } else p

  -- The visible entry at the focused row.
  abbrev pub row_of : Option ℕ → HistoryPanel R → Option HistoryEntry
  row_of none p = none
  row_of (some idx) p = nth idx (filtered p.search_query p.entries)

  unfoldable pub delete_at : ℕ → ℕ → HistoryPanel R → HistoryPanel R
  delete_at idx id p =
      let rest = without_id id p.entries in
      record p {
        entries = rest;
        focused_row = focus_left idx (visible_count_of p.search_query rest);
        phase = phase_of rest p.search_query;
      }

  abbrev pub delete_row :
      ℕ → Option HistoryEntry → HistoryPanel R → HistoryPanel R × Option HistoryEvent
  delete_row idx none p = (p, none)
  delete_row idx (some e) p = (delete_at idx e.id p, some (entry_deleted e.id))

  abbrev pub delete_focused : Option ℕ → HistoryPanel R → HistoryPanel R × Option HistoryEvent
  delete_focused none p = (p, none)
  delete_focused (some idx) p = delete_row idx (nth idx (filtered p.search_query p.entries)) p

  -- `update`, at the time `now`.
  unfoldable pub update : ℕ → HistoryMsg → HistoryPanel R → HistoryPanel R × Option HistoryEvent
  update now opened p = (
    record p {
      is_open = true;
      phase = recompute_phase p;
      search_query = [];
      focused_row = none;
      now_ms = now;
    },
    none,
  )
  update now closed p = (
    record p {
      is_open = false;
      search_query = [];
      focused_row = none;
      phase = phase_closed p.phase p;
    },
    none,
  )
  update now (entries_loaded entries) p = (
    record p {
      entries = entries;
      now_ms = now;
      focused_row = none;
      phase = phase_of entries p.search_query;
    },
    none,
  )
  update now load_failed p = (record p { phase = load_error }, none)
  update now storage_corrupted p = (record p { phase = corrupted_warning }, none)
  update now (search_changed q) p =
      (record p { search_query = q; focused_row = none; phase = phase_of p.entries q }, none)
  update now (entry_open id) p = (p, url_event navigate (find_id id p.entries))
  update now (entry_open_new_tab id) p = (p, url_event navigate_new_tab (find_id id p.entries))
  update now (entry_open_strict_tab id) p =
      (p, url_event navigate_strict_tab (find_id id p.entries))
  update now (entry_delete id) p =
      let rest = without_id id p.entries in
      (
        record p { entries = rest; focused_row = none; phase = phase_of rest p.search_query },
        some (entry_deleted id),
      )
  update now focus_up p = (focus_at p up_from, none)
  update now focus_down p = (focus_at p down_from, none)
  update now focus_activate p = (p, url_event navigate (row_of p.focused_row p))
  update now focus_delete p = delete_focused p.focused_row p
  update now clear_requested p = (record p { phase = phase_clear p.phase }, none)
  update now clear_confirmed p = (
    record p { entries = []; search_query = []; focused_row = none; phase = empty },
    some all_cleared,
  )
  update now clear_cancelled p = (record p { phase = recompute_phase p }, none)
  update now clear_failed p = (record p { phase = recompute_phase p }, none)
