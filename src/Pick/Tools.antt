-- ===== src/Pick/Tools.antt =====
-- `togglePick`, `toggleInsert` and what the browser remembers of them.
use ar_automation_agent.Prelude.{
  Bool, true, false, not, ◌||◌, ◌&&◌, Option, none, some, if◌then◌else◌,
}
use ar_automation_agent.Resume.Meta.{idle, picking}
use ar_automation_agent.Pick.State.{replace, Pick, is_insert, is_picking, is_configuring, is_idle}
use ar_automation_agent.Pick.Steps.{
  set_live_state, clear_insert_picking, hide_highlight, hide_bar, hide_action_picker,
  teardown_configure_chrome, cancel_insert_configure,
}

unfoldable pub save_interaction_prefs : Pick → Pick
save_interaction_prefs p = record p { saved_prefs = some (p.pick_active, p.insert_active) }

-- The prefs of the storage, none where there are none, and those of an older version.
unfoldable pub load_interaction_prefs : Option (Bool × Bool) → Option Bool → Bool × Bool
load_interaction_prefs (some prefs) legacy = prefs
load_interaction_prefs none (some pick) = (pick, false)
load_interaction_prefs none none = (false, false)

abbrev pub pick_off : Pick → Pick
pick_off p =
    if is_insert p.configure_kind && is_configuring p.state
    then cancel_insert_configure p
    else let q = hide_action_picker (hide_highlight (teardown_configure_chrome p)) in
      let r = record q {
        selected_element = none;
        hovered_element = none;
        configure_kind = replace;
      } in
      (if is_picking r.state || is_configuring r.state then set_live_state idle r else r)

abbrev pub pick_on : Pick → Pick
pick_on p = if is_idle p.state then set_live_state picking p else p

unfoldable pub toggle_pick : Pick → Pick
unfolding clear_insert_picking save_interaction_prefs cancel_insert_configure hide_action_picker
    hide_highlight teardown_configure_chrome set_live_state
toggle_pick p =
    if p.pending_apply_in_flight
    then p
    else if p.pick_active
    then pick_off (save_interaction_prefs (record p { pick_active = false }))
    else pick_on (
        save_interaction_prefs
          (clear_insert_picking (record p { pick_active = true; insert_active = false })))

abbrev pub insert_on : Pick → Pick
insert_on p =
    let q = hide_action_picker (hide_bar (hide_highlight (record p { pick_active = false }))) in
    let r = record q { selected_element = none; configure_kind = replace } in
    if is_configuring r.state
    then cancel_insert_configure r
    else if is_idle r.state || is_picking r.state
    then set_live_state picking r
    else r

abbrev pub insert_off : Pick → Pick
insert_off p =
    let q = clear_insert_picking p in
    if is_picking q.state && not q.pick_active then set_live_state idle q else q

unfoldable pub toggle_insert : Pick → Pick
unfolding save_interaction_prefs hide_action_picker hide_bar hide_highlight cancel_insert_configure
    set_live_state clear_insert_picking
toggle_insert p =
    if p.pending_apply_in_flight
    then p
    else if p.insert_active
    then save_interaction_prefs (insert_off (record p { insert_active = false }))
    else save_interaction_prefs (insert_on (record p { insert_active = true }))
