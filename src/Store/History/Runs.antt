-- ===== src/Store/History/Runs.antt =====
-- Histories compose.
use tick.Base.{◌≡◌, refl, ◌∙◌, ap, List, [], ◌∷◌, ◌++◌}
use tick.Database.{Db, Postgres}
use tick.Store.History.{Event, run, perform}

-- `after` is what some history of store operations makes of `before`.
abbrev pub IsHistory : Postgres → Db → Db → Type 0
IsHistory pg before after = (es : List Event) × (run pg es before ≡ after)

run-append :
    (pg : Postgres) (es fs : List Event) (db : Db) → run pg (es ++ fs) db ≡ run pg fs (run pg es db)
unfolding run
run-append pg [] fs db = refl
run-append pg (e ∷ es) fs db = run-append pg es fs (perform pg e.link e.now e.op db)

pub IsHistory-trans :
    (pg : Postgres) (a b c : Db) → IsHistory pg a b → IsHistory pg b c → IsHistory pg a c
IsHistory-trans pg a b c (es, e) (fs, f) = (es ++ fs, run-append pg es fs a ∙ ap (run pg fs) e ∙ f)

pub IsHistory-one :
    (pg : Postgres) (e : Event) (db : Db) → IsHistory pg db (perform pg e.link e.now e.op db)
unfolding run
IsHistory-one pg e db = (e ∷ [], refl)

pub IsHistory-refl : (pg : Postgres) (db : Db) → IsHistory pg db db
unfolding run
IsHistory-refl pg db = ([], refl)

pub IsHistory-same :
    (pg : Postgres) (before after : Db) → before ≡ after → IsHistory pg before after
unfolding run
IsHistory-same pg before after e = ([], e)
