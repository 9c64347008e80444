-- ===== src/CursorPages/Hook/Walk.antt =====
-- The events of a paged table as a step relation, and the walk that its rows are.
use porymcp.Base.{◌≡◌, ◌≢◌, true, false, Option, some, List, [], ◌∷◌, ◌++◌, Text}
use porymcp.CursorPages.Hook.{
  Body, Outcome, resolved, rejected, Asked, first, load_more, Pending, Hook, rows_of, cursor_of,
  run_effect, press, settle,
}

abbrev pub query_of : Asked → Text
query_of (first q) = q
query_of (load_more r) = r.query

abbrev pub from_cursor : Asked → Text
from_cursor (first q) = []
from_cursor (load_more r) = r.cursor

-- `Answers q c b`: the server may answer the query `q` at the cursor `c` by the body `b`.
module _ {T : Type 0} (Answers : Text → Text → Body T → Type 0) where
  -- The rows of a query's pages, in order, each asked for with the cursor of the page before.
  pub data Walk (q : Text) : List T → Text → Type 0 where
    page_one : {b : Body T} → Answers q [] b → Walk q (rows_of b) (cursor_of b)
    page_more :
        {rows : List T} {c : Text} {b : Body T}
        → Walk q rows c
        → c ≢ []
        → Answers q c b
        → Walk q (rows ++ rows_of b) (cursor_of b)

  abbrev pub Genuine : Asked → Outcome T → Type 0
  Genuine a (resolved b) = Answers (query_of a) (from_cursor a) b
  Genuine a (rejected err) = Unit

  pub data Step (slow : Text) : Hook T → Hook T → Type 0 where
    render : (s : Hook T) (query : Option Text) → Step slow s (record s { live = query })
    effect : (s : Hook T) → s.mounted ≡ true → s.ran ≢ some s.live → Step slow s (run_effect s)
    pressed : (s : Hook T) → Step slow s (press s)
    answered :
        (s : Hook T) (before after : List Pending) (p : Pending) (outcome : Outcome T)
        → s.pending ≡ before ++ (p ∷ after)
        → Genuine p.asked outcome
        → Step slow s (settle slow p outcome (record s { pending = before ++ after }))
    unmount : (s : Hook T) → Step slow s (record s { mounted = false })

  pub data Reach (slow : Text) (s : Hook T) : Hook T → Type 0 where
    here : Reach slow s s
    next : {t u : Hook T} → Reach slow s t → Step slow t u → Reach slow s u
