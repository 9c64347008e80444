-- ===== src/GroupsPage.antt =====
-- The Create and Edit dialog of the Groups page (web/src/app/(app)/groups/page.tsx): the save flow
-- with its two Alerts, and the read of the group before a PATCH that carries a filter.
--
-- A handler runs whole, between two renders. The catalogue is what the catalogue hook gives the
-- page at that time.
pub mod Saves
pub mod Flags
pub mod Alerts
pub mod Asked
mod Tests
use porymcp.Base.{
  ℕ, zero, suc, ◌+◌, ◌-◌, ◌*◌, ◌/◌, ◌%◌, ◌≤◌, ◌<◌, String, ◌≡◌, refl, sym, ap, ap₂, subst, ◌∙◌, ◌≢◌,
  ◌↔◌, ◌⊎◌, inl, inr, Bool, true, false, false≢true, true≢false, not, ◌&&◌, ◌||◌, Option, none,
  some, List, [], ◌∷◌, ◌++◌, map, append-nil, append_assoc, arith, ltb, leb, eqb, if◌then◌else◌,
  eqb_iff, eqb_refl, Bool-cases, Option-cases, Bool-eq, and_parts, or_cases, or_right, not-true,
  or_false, some_inj, not-false, length, take, drop, any, all, filter, find, is_empty, All, or_else,
  length-append, take-append_length, drop-append_length, any-append, any-filter, any_ext,
  All-weaken, All-append, All-middle, All-insert, All-both, Exists, any_iff, all_iff, is_found,
  find-any, Text, text, ◌==◌, starts_with, join, truthy, or_text, eq_sound, eq_refl, eq_complete,
  eq_iff, starts_with-append, starts_with_rest, trim_end, trim_start, trim, includes, Distinct,
  SubsetOf, SameSet, includes-append, any_of_includes, all_of_includes, all_intro, any_witness,
  any-SameSet, without, includes-without, Distinct-without, length-without, length-SubsetOf,
  SameSet-of_length, digits_onto, decimal,
}
use porymcp.Json.{Json, Items, Members}
use porymcp.Json.Json.{null, arr, obj}
use porymcp.Json.Items.{nil}
use porymcp.Json.Members.{end, member}
use porymcp.Api.{Group, Failure, api_error, unreachable}
use porymcp.Api.Errors.{edit_error_message, group, save}
use porymcp.ToolEntry.{filter_permits}
use porymcp.Catalogue.{MemberCatalogue, blocks_everything}
use porymcp.GroupForm.{
  GroupForm, blank_group_form, form_from_group, group_create_body, group_patch_body,
  group_save_blocked, group_policy_stale, group_filter_stale,
}
use porymcp.AdminEvent.{entry}

-- A request that is out, with the count it saw. A PATCH also carries the read that it followed.
pub data GroupCall : Type 0 where
  creating : ℕ → GroupCall
  rereading : ℕ → Group → Members → GroupCall
  patching : ℕ → Group → Members → Option Group → GroupCall

abbrev pub seq_of : GroupCall → ℕ
seq_of (creating mine) = mine
seq_of (rereading mine row body) = mine
seq_of (patching mine row body fresh) = mine

pub record GroupsPage : Type 0 where
  pub groups : List Group
  pub loads : ℕ
  pub open_dialog : Bool
  pub editing : Option Group
  pub saving : Bool
  pub error : Text
  pub form_error : Text
  pub form_error_seq : ℕ
  pub form : GroupForm
  pub confirm_empty : Bool
  pub confirm_blocks : Bool
  pub answered_empty : Bool
  pub answered_blocks : Bool
  pub dialog_seq : ℕ
  pub catalogue : List MemberCatalogue
  pub calls : List GroupCall

abbrev pub fresh_groups : GroupsPage
fresh_groups = record {
  groups = [];
  loads = 1;
  open_dialog = false;
  editing = none;
  saving = false;
  error = [];
  form_error = [];
  form_error_seq = 0;
  form = blank_group_form;
  confirm_empty = false;
  confirm_blocks = false;
  answered_empty = false;
  answered_blocks = false;
  dialog_seq = 0;
  catalogue = [];
  calls = [];
}

abbrev pub group_opened : GroupsPage → GroupsPage
group_opened p = record p { dialog_seq = suc p.dialog_seq; saving = false; open_dialog = true }

abbrev pub open_create : GroupsPage → GroupsPage
open_create p = group_opened (record p { editing = none; form_error = []; form = blank_group_form })

abbrev pub open_group : Group → GroupsPage → GroupsPage
open_group g p =
    group_opened (record p { editing = some g; form_error = []; form = form_from_group g })

abbrev pub close_group : GroupsPage → GroupsPage
close_group p = record p { open_dialog = false; confirm_empty = false; confirm_blocks = false }

abbrev pub body_entry : Json → Text → Option Json
body_entry (obj ms) key = entry ms key
body_entry _ key = none

-- A filter that is sent, and not taken away.
abbrev pub sends_a_filter : Option Json → Bool
sends_a_filter none = false
sends_a_filter (some null) = false
sends_a_filter (some _) = true

unfoldable pub asks_about_blocking : Option Json → GroupsPage → Bool
asks_about_blocking sent p =
    sends_a_filter sent
    && not p.answered_blocks
    && blocks_everything (filter_permits p.form.filter) p.catalogue

abbrev pub is_gone : Failure → Bool
is_gone (api_error e) = eqb e.status 404
is_gone unreachable = false

abbrev pub load_groups : GroupsPage → GroupsPage
load_groups p = record p { loads = suc p.loads }

-- Told in the dialog that the request came from, or else on the page.
unfoldable pub tell : Text → ℕ → GroupsPage → GroupsPage
tell message mine p =
    if p.open_dialog && eqb p.dialog_seq mine
    then record p { form_error = message; form_error_seq = suc p.form_error_seq }
    else record p { error = message }

unfoldable pub group_failed : Failure → ℕ → GroupsPage → GroupsPage
unfolding tell
group_failed err mine p =
    tell (edit_error_message err group save) mine (if is_gone err then load_groups p else p)

abbrev pub group_saving_ends : ℕ → GroupsPage → GroupsPage
group_saving_ends mine p = if eqb p.dialog_seq mine then record p { saving = false } else p

unfoldable pub create_group : GroupsPage → GroupsPage
unfolding asks_about_blocking
create_group p =
    if asks_about_blocking (body_entry (group_create_body p.form) (text "tool_filter")) p
    then record p { confirm_blocks = true }
    else record p { saving = true; calls = p.calls ++ creating p.dialog_seq ∷ [] }

unfoldable pub group_created : ℕ → GroupsPage → GroupsPage
group_created mine p = group_saving_ends mine (
    load_groups
      (if eqb p.dialog_seq mine then record (close_group p) { form = blank_group_form } else p))

unfoldable pub group_refused : ℕ → Failure → GroupsPage → GroupsPage
unfolding group_failed
group_refused mine err p = group_saving_ends mine (group_failed err mine p)

abbrev pub is_end : Members → Bool
is_end end = true
is_end (member k v ms) = false

-- `Array.isArray(ids) && ids.length === 0`
abbrev pub empties : Option Json → Bool
empties (some (arr nil)) = true
empties _ = false

-- The first request of a save: the read, where the body carries a filter.
abbrev pub first_call : ℕ → Group → Members → GroupCall
first_call mine row body =
    if is_found (entry body (text "tool_filter"))
    then rereading mine row body
    else patching mine row body none

abbrev pub save_group_row : Group → Members → GroupsPage → GroupsPage
save_group_row row body p =
    if is_end body
    then close_group p
    else if empties (entry body (text "upstream_ids")) && not p.answered_empty
    then record p { confirm_empty = true }
    else if asks_about_blocking (entry body (text "tool_filter")) p
    then record p { confirm_blocks = true }
    else record p { saving = true; calls = p.calls ++ first_call p.dialog_seq row body ∷ [] }

abbrev pub save_group_over : Option Group → GroupsPage → GroupsPage
save_group_over none p = p
save_group_over (some row) p = save_group_row row (group_patch_body row p.form) p

abbrev pub save_group : GroupsPage → GroupsPage
save_group p = save_group_over p.editing p

abbrev pub stale_read : Group → Option Group → Bool
stale_read row none = true
stale_read row (some fresh) = group_policy_stale row fresh

-- The answer of the read: nothing is sent over a group that changed, or that is not there.
unfoldable pub reread : ℕ → Group → Members → Option Group → GroupsPage → GroupsPage
unfolding tell
reread mine row body fresh p =
    if stale_read row fresh
    then group_saving_ends mine (tell group_filter_stale mine p)
    else record p { calls = p.calls ++ patching mine row body fresh ∷ [] }

abbrev pub put_group : Group → List Group → List Group
put_group saved groups = map (λ x. if x.id == saved.id then saved else x) groups

unfoldable pub group_saved : ℕ → Group → GroupsPage → GroupsPage
group_saved mine saved p =
    let shown = record p { groups = put_group saved p.groups } in
    group_saving_ends mine (if eqb p.dialog_seq mine then close_group shown else shown)

abbrev pub save_or_create : GroupsPage → GroupsPage
save_or_create p = if is_found p.editing then save_group p else create_group p

unfoldable pub submit_group : GroupsPage → GroupsPage
unfolding create_group asks_about_blocking
submit_group p =
    let cleared = record p { form_error = [] } in
    if truthy (group_save_blocked p.editing p.form)
    then cleared
    else save_or_create (record cleared { answered_empty = false; answered_blocks = false })

abbrev pub confirm_remove_all : GroupsPage → GroupsPage
confirm_remove_all p = save_group (record p { confirm_empty = false; answered_empty = true })

abbrev pub confirm_blocks_all : GroupsPage → GroupsPage
confirm_blocks_all p = save_or_create (record p { confirm_blocks = false; answered_blocks = true })

abbrev pub without_group_call : List GroupCall → List GroupCall → GroupsPage → GroupsPage
without_group_call before after p = record p { calls = before ++ after }

pub data Step : GroupsPage → GroupsPage → Type 0 where
  opens_create : {p : GroupsPage} → Step p (open_create p)
  opens_edit : {p : GroupsPage} (g : Group) → Step p (open_group g p)
  changes : {p : GroupsPage} (f : GroupForm) → Step p (record p { form = f })
  catalogues : {p : GroupsPage} (c : List MemberCatalogue) → Step p (record p { catalogue = c })
  submits : {p : GroupsPage} → Step p (submit_group p)
  confirms_empty : {p : GroupsPage} → Step p (confirm_remove_all p)
  confirms_blocks : {p : GroupsPage} → Step p (confirm_blocks_all p)
  cancels_empty : {p : GroupsPage} → Step p (record p { confirm_empty = false })
  cancels_blocks : {p : GroupsPage} → Step p (record p { confirm_blocks = false })
  closes : {p : GroupsPage} → Step p (close_group p)
  lists : {p : GroupsPage} (groups : List Group) → Step p (record p { groups = groups })
  fails_list : {p : GroupsPage} (message : Text) → Step p (record p { error = message })
  creates :
      {p : GroupsPage} (before after : List GroupCall) (mine : ℕ)
      → p.calls ≡ before ++ (creating mine ∷ after)
      → Step p (group_created mine (without_group_call before after p))
  reads :
      {p : GroupsPage} (before after : List GroupCall) (mine : ℕ) (row : Group) (body : Members)
      (fresh : Option Group)
      → p.calls ≡ before ++ (rereading mine row body ∷ after)
      → Step p (reread mine row body fresh (without_group_call before after p))
  saves :
      {p : GroupsPage} (before after : List GroupCall) (mine : ℕ) (row : Group) (body : Members)
      (fresh : Option Group) (saved : Group)
      → p.calls ≡ before ++ (patching mine row body fresh ∷ after)
      → Step p (group_saved mine saved (without_group_call before after p))
  refuses :
      {p : GroupsPage} (before after : List GroupCall) (call : GroupCall) (err : Failure)
      → p.calls ≡ before ++ (call ∷ after)
      → Step p (group_refused (seq_of call) err (without_group_call before after p))

pub data Reach : GroupsPage → Type 0 where
  starts : Reach fresh_groups
  steps : {p q : GroupsPage} → Reach p → Step p q → Reach q
