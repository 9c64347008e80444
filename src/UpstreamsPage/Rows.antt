-- ===== src/UpstreamsPage/Rows.antt =====
-- The rows' actions on the Upstreams page: Tools, Connect, Disconnect and Delete
-- (web/src/app/(app)/upstreams/page.tsx), over the page's list and dialog.
--
-- `new_url` is the browser's. A page that the browser's page cache restores has no sign-in request
-- out: a request does not outlive the page that sent it.
use porymcp.Base.{
  ℕ, suc, ◌≡◌, Bool, true, false, not, Option, none, some, List, [], ◌∷◌, ◌++◌, eqb, if◌then◌else◌,
  filter, or_else, is_found, Text, text, ◌==◌,
}
use porymcp.Api.{Upstream, Discovery, Failure}
use porymcp.Api.Errors.{
  discovery_error_message, edit_error_message, connect_error_message, upstream, save, delete,
}
use porymcp.OauthConnect.{Url, client, revoke_kind, revoke_result_line, authorization_url_is_web}
use porymcp.UpstreamsPage.{
  UpstreamsPage, DiscoveryState, idle_panel, is_gone, load_items, put_item, choice_of,
}

-- A request that is out: a row's discovery with the count it saw, the start of a sign-in with the
-- client that it forces, the disconnect and the removal of a row.
pub data RowCall : Type 0 where
  testing : ℕ → Text → RowCall
  starting : Text → Bool → RowCall
  revoking_row : Upstream → RowCall
  deleting_row : Text → RowCall

pub record Rows : Type 0 where
  pub page : UpstreamsPage
  pub tools : Option Upstream
  pub row_discovery : DiscoveryState
  pub row_seq : ℕ
  pub pending_delete : Option Upstream
  pub deleting : Bool
  pub delete_error : Text
  pub connecting : Option Text
  pub connecting_ref : Option Text
  pub connect_error : Text
  pub assigned : Option Text
  pub pending_revoke : Option Upstream
  pub revoking : Bool
  pub revoke_error : Text
  pub row_calls : List RowCall

abbrev pub fresh_rows : UpstreamsPage → Rows
fresh_rows page = record {
  page = page;
  tools = none;
  row_discovery = idle_panel;
  row_seq = 0;
  pending_delete = none;
  deleting = false;
  delete_error = [];
  connecting = none;
  connecting_ref = none;
  connect_error = [];
  assigned = none;
  pending_revoke = none;
  revoking = false;
  revoke_error = [];
  row_calls = [];
}

abbrev pub discover_row : Upstream → Rows → Rows
discover_row u r = record r {
  row_seq = suc r.row_seq;
  row_discovery = record { result = none; pending = true; error = [] };
  row_calls = r.row_calls ++ testing (suc r.row_seq) u.id ∷ [];
}

abbrev pub open_tools : Upstream → Rows → Rows
open_tools u r = discover_row u (record r { tools = some u })

abbrev pub close_tools : Rows → Rows
close_tools r = record r { row_seq = suc r.row_seq; tools = none; row_discovery = idle_panel }

abbrev pub reload : Rows → Rows
reload r = record r { page = load_items r.page }

-- The answer is painted only while it is the newest; the list is read again either way.
unfoldable pub tested_row : ℕ → DiscoveryState → Rows → Rows
tested_row mine shown r =
    reload (if eqb r.row_seq mine then record r { row_discovery = shown } else r)

abbrev pub found_tools : Discovery → DiscoveryState
found_tools d = record { result = some d; pending = false; error = [] }

abbrev pub lost_tools : Failure → DiscoveryState
lost_tools err = record { result = none; pending = false; error = discovery_error_message err }

unfoldable pub connect : Upstream → Rows → Rows
unfolding choice_of
connect u r = if is_found r.connecting_ref then r else record r {
  connecting_ref = some u.id;
  connect_error = [];
  connecting = some u.id;
  row_calls = r.row_calls ++ starting u.id (choice_of r.page.register_for u.id) ∷ [];
}

abbrev pub cannot_open : Text
cannot_open = text "The server answered with an address this browser cannot open."

unfoldable pub sign_in_started : (Text → Option Url) → Text → Rows → Rows
unfolding authorization_url_is_web
sign_in_started new_url url r =
    if not (authorization_url_is_web new_url url)
    then record r { connect_error = cannot_open; connecting_ref = none; connecting = none }
    else record r { assigned = some url }

abbrev reload_if : Bool → Rows → Rows
reload_if gone r = if gone then reload r else r

unfoldable pub sign_in_refused : Failure → Rows → Rows
sign_in_refused err r = record (reload_if (is_gone err) r) {
  connect_error = connect_error_message err;
  connecting_ref = none;
  connecting = none;
}

abbrev pub restored : Rows → Rows
restored r = record r { connecting_ref = none; connecting = none }

abbrev pub close_revoke : Rows → Rows
close_revoke r = record r { pending_revoke = none; revoke_error = [] }

abbrev pub revoke_row : Option Upstream → Rows → Rows
revoke_row none r = r
revoke_row (some row) r = record r {
  revoking = true;
  revoke_error = [];
  row_calls = r.row_calls ++ revoking_row row ∷ [];
}

abbrev pub revoke : Rows → Rows
revoke r = revoke_row r.pending_revoke r

abbrev same_row : Upstream → Option Upstream → Option Upstream
same_row u none = none
same_row u (some e) = if e.id == u.id then some u else some e

unfoldable pub revoked : Upstream → Upstream → Text → Rows → Rows
revoked row after vendor_revocation r = record (close_revoke r) {
  page = record r.page {
    items = put_item after r.page.items;
    editing = same_row after r.page.editing;
    revoke_line = revoke_result_line vendor_revocation (or_else (revoke_kind row) client);
  };
  revoking = false;
}

unfoldable pub revoke_refused : Failure → Rows → Rows
revoke_refused err r = record (reload_if (is_gone err) r) {
  revoke_error = edit_error_message err upstream save;
  revoking = false;
}

abbrev pub close_delete : Rows → Rows
close_delete r = record r { pending_delete = none; delete_error = [] }

abbrev pub delete_row : Option Upstream → Rows → Rows
delete_row none r = r
delete_row (some row) r = record r {
  deleting = true;
  delete_error = [];
  row_calls = r.row_calls ++ deleting_row row.id ∷ [];
}

abbrev pub remove_row : Rows → Rows
remove_row r = delete_row r.pending_delete r

unfoldable pub removed : Text → Rows → Rows
removed id r = record (close_delete r) {
  page = record r.page { items = filter (λ x. not (x.id == id)) r.page.items };
  deleting = false;
}

unfoldable pub remove_refused : Failure → Rows → Rows
remove_refused err r = record (reload_if (is_gone err) r) {
  delete_error = edit_error_message err upstream delete;
  deleting = false;
}

abbrev pub starts_of : List RowCall → ℕ
starts_of [] = 0
starts_of (starting id forced ∷ cs) = suc (starts_of cs)
starts_of (_ ∷ cs) = starts_of cs

abbrev pub without_row_call : List RowCall → List RowCall → Rows → Rows
without_row_call before after r = record r { row_calls = before ++ after }

module _ (new_url : Text → Option Url) where
  pub data Step : Rows → Rows → Type 0 where
    opens : {r : Rows} (u : Upstream) → Step r (open_tools u r)
    refreshes : {r : Rows} (u : Upstream) → r.tools ≡ some u → Step r (discover_row u r)
    shuts : {r : Rows} → Step r (close_tools r)
    tests :
        {r : Rows} (before after : List RowCall) (mine : ℕ) (id : Text) (shown : DiscoveryState)
        → r.row_calls ≡ before ++ (testing mine id ∷ after)
        → Step r (tested_row mine shown (without_row_call before after r))
    connects : {r : Rows} (u : Upstream) → Step r (connect u r)
    signs_in :
        {r : Rows} (before after : List RowCall) (id : Text) (forced : Bool) (url : Text)
        → r.row_calls ≡ before ++ (starting id forced ∷ after)
        → Step r (sign_in_started new_url url (without_row_call before after r))
    refuses_sign_in :
        {r : Rows} (before after : List RowCall) (id : Text) (forced : Bool) (err : Failure)
        → r.row_calls ≡ before ++ (starting id forced ∷ after)
        → Step r (sign_in_refused err (without_row_call before after r))
    restores : {r : Rows} → starts_of r.row_calls ≡ 0 → Step r (restored r)
    asks_revoke : {r : Rows} (u : Upstream) → Step r (record r { pending_revoke = some u })
    cancels_revoke : {r : Rows} → Step r (close_revoke r)
    revokes : {r : Rows} → Step r (revoke r)
    revoke_answers :
        {r : Rows} (before after : List RowCall) (row now : Upstream) (said : Text)
        → r.row_calls ≡ before ++ (revoking_row row ∷ after)
        → Step r (revoked row now said (without_row_call before after r))
    revoke_fails :
        {r : Rows} (before after : List RowCall) (row : Upstream) (err : Failure)
        → r.row_calls ≡ before ++ (revoking_row row ∷ after)
        → Step r (revoke_refused err (without_row_call before after r))
    asks_delete : {r : Rows} (u : Upstream) → Step r (record r { pending_delete = some u })
    cancels_delete : {r : Rows} → Step r (close_delete r)
    deletes : {r : Rows} → Step r (remove_row r)
    delete_answers :
        {r : Rows} (before after : List RowCall) (id : Text)
        → r.row_calls ≡ before ++ (deleting_row id ∷ after)
        → Step r (removed id (without_row_call before after r))
    delete_fails :
        {r : Rows} (before after : List RowCall) (id : Text) (err : Failure)
        → r.row_calls ≡ before ++ (deleting_row id ∷ after)
        → Step r (remove_refused err (without_row_call before after r))
    page_steps : {r : Rows} (page : UpstreamsPage) → Step r (record r { page = page })

  pub data Reach : Rows → Type 0 where
    begins : (page : UpstreamsPage) → Reach (fresh_rows page)
    steps : {r s : Rows} → Reach r → Step r s → Reach s
