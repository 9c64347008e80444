-- ===== src/Lib.antt =====
-- The rules of the PoryMCP dashboard: tool entries, filters, forms, catalogues, queries and paging.
--
-- PoryMCP is a proxy in front of MCP servers. An operator registers upstreams, puts them in
-- groups and hands out virtual keys; a group carries a filter of tools and a key two lists of
-- tools. The proxy enforces them. The dashboard (web/src/lib) reads them back, says what they do,
-- edits them and decides what a save sends, so each of its verdicts must be the proxy's.
--
-- The parts, and the files that model them:
--
--   ToolEntry       web/src/lib/tool-entry.ts: the separator, identities, clean entries, slugs, the
--                   matcher and the verdict of a filter (splitEntry, scopedToolName, cleanEntry,
--                   matchToolEntry, entryProblem, filterPermits).
--   ToolFilter      web/src/lib/tool-filter.ts: a served filter read (parseToolFilter, in
--                   ToolFilter/Parse), the value sent (filterValue), comparison, edits, problems.
--   Api             web/src/lib/api.ts: the types; Api/Errors the sentences for a failure, with
--                   those of discovery.ts, edit-error.ts, oauth-connect.ts and logs-view.ts.
--   CursorPages     web/src/lib/cursor-pages.ts: the pages of a table; CursorPages/Hook is
--                   web/src/lib/use-cursor-pages.ts, the hook that fetches them.
--   Catalogue       web/src/lib/catalogue.ts: what a Load tools press learned, and the verdicts;
--                   Catalogue/Notes the sentences and badges beside them.
--   DiscoverMany    web/src/lib/discover-many.ts: the press itself, two calls at a time.
--   RuleConflicts   web/src/lib/rule-conflicts.ts: what one rule does to another;
--                   RuleConflicts/Groups is what a key's group does.
--   GroupForm       web/src/lib/group-form.ts: the group dialogs' form and bodies.
--   GroupsPage      web/src/app/(app)/groups/page.tsx: the save flow of the group dialog.
--   VirtualKeyForm  web/src/lib/virtual-key-form.ts: the key dialogs' form and bodies;
--                   VirtualKeyForm/Stale the check before a save and the table's badge.
--   UpstreamForm    web/src/lib/upstream-form.ts and web/src/lib/upstream-transport.ts: the
--                   upstream dialogs' form and bodies; UpstreamForm/Notes the texts beside them.
--   UpstreamsPage   web/src/app/(app)/upstreams/page.tsx: the state and the handlers of the Add and
--                   Edit dialog, and the answers of the requests that they send;
--                   UpstreamsPage/Rows is Tools, Connect, Disconnect and Delete.
--   SlugPreview     web/src/lib/slug.ts: the slug that the Add dialog shows for a name.
--   UpstreamAuth    web/src/lib/upstream-auth.ts: the Auth cell of an upstream's row.
--   UpstreamTest    web/src/lib/upstream-test.ts: the last test in an upstream's Status cell.
--   UseCatalogue    web/src/lib/use-catalogue.ts: the hook that keeps a dialog's catalogue, over the
--                   runs of DiscoverMany.
--   LogsView        web/src/lib/logs-view.ts: the Logs page's filters, their queries and periods;
--                   LogsView/Options the selects and the facets.
--   UseLogFacets    web/src/lib/use-log-facets.ts: the hook that fetches the facets.
--   PolicyView      web/src/lib/policy-view.ts: the blocks and sentences of the Policy dialog.
--   AdminEvent      web/src/lib/admin-event.ts: the rows of the Admin events table.
--   OauthConnect    web/src/lib/oauth-connect.ts: disconnects, and the choices that survive a
--                   sign-in.
--   Discovery       web/src/lib/discovery.ts: the checks and lines of the discovery panel.
--   RowActions      web/src/lib/row-actions.ts: the menus of the tables' rows.
--   Clients         web/src/lib/clients.ts: the configuration that is shown for an MCP client;
--                   Clients/Entries prints its JSON.
--   Copy            web/src/lib/plural.ts and web/src/lib/placeholder.ts.
--   Base, Json      shared helpers; JSON values and JSON.stringify.
--
-- The dialogs build on one another as the source's imports do: the filter form on the matcher,
-- the conflicts and the two forms on the filter form, the catalogue on the matcher, the press on
-- the catalogue, the catalogue's hook on the press, the upstream form on the Auth cell. Everything
-- but the pages, the three hooks and the press is a function of its arguments and keeps no state.
--
-- How the code is represented:
--
--   * A string is a list of UTF-16 code units, which cleanEntry and clampText join to code points
--     as the language does. A literal is written text "...". Numbers are the native naturals: all
--     numbers of these files are counts, statuses and code units.
--   * JSON values are a data type. An object is the list of its entries in the order of
--     Object.entries. undefined is none. A request body is the list of its members.
--   * parseToolFilter compares the lower case of a member's name with three ASCII names; lower
--     follows toLowerCase where an ASCII letter comes of it, which is all that the comparison
--     depends on. A slug's patterns are recognisers by structural recursion.
--   * The paging hook is a record of its refs and states, and a run a sequence of steps (a render
--     with a new query, the effect, a press, an answer to any request in flight, unmounting); the
--     server's answers are a parameter. The path of the table does not change.
--   * A Load tools press is a record of what is left, what is out and what was reported, and a run
--     a sequence of answers with the dialog going stale anywhere between them.
--   * The catalogue hook is a record of its states and refs with the runs that have not ended, and
--     a run of it a sequence of renders, writes of its effect, presses, answers and ends of runs.
--     The effect is a step of its own, so other steps may come between a render and it.
--   * The facet hook is a record of its states and refs with the requests in flight, and a run of
--     it a sequence of renders, effects, ends of a wait and answers, in any order. The server is a
--     relation of queries and answers, a parameter.
--   * The Upstreams page is a record of its states and counters with the requests that are out, and
--     a run of it a sequence of handlers and answers. openRef, which is set where open is, is open.
--     registerFor is written in the handler, where the source writes it in a state update. For the
--     rows' actions the dialog's own steps are any change of the page.
--   * The Groups page is represented in the same way. The dialog may set its form to anything, and
--     the catalogue hook may give the page any catalogue, at any time; an Alert's two buttons may be
--     pressed whether it shows or not, which is more than the page lets happen.
--   * What the browser supplies is a parameter: the reading and writing of dates (Dates and
--     Date.parse), URLSearchParams (SearchParams, whose one law is that it parses what it printed),
--     new URL, JSON.parse and the session storage.
--   * decimal, which prints a number, recurs on fuel, the number itself and one more: each round
--     divides by ten. pick_key, which looks for a free table key, recurs on the number of keys in
--     use: of that many suffixes and one more, one is free. Every other function is structural.
--
-- Not modelled: the markup under web/src/app, Delete of the Groups page and the handlers of the
-- other pages; the fetch calls and the browser, which wire these functions to events and the
-- network; and the Go server, but for the check of a key's lists (internal/proxy/policy.go), which
-- RuleConflicts states.
pub mod Base
pub mod Json
pub mod ToolEntry
pub mod ToolFilter
pub mod Api
pub mod CursorPages
pub mod Catalogue
pub mod DiscoverMany
pub mod RuleConflicts
pub mod GroupForm
pub mod VirtualKeyForm
pub mod UpstreamAuth
pub mod UpstreamForm
pub mod SlugPreview
pub mod Clients
pub mod Copy
pub mod LogsView
pub mod UseCatalogue
pub mod UpstreamTest
pub mod AdminEvent
pub mod PolicyView
pub mod RowActions
pub mod OauthConnect
pub mod Discovery
pub mod UseLogFacets
pub mod UpstreamsPage
pub mod GroupsPage
