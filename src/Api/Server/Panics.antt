-- ===== src/Api/Server/Panics.antt =====
-- What a client is answered through the stack of middleware, also when a handler panics.
use tick.Base.{
  ℕ, ◌≡◌, refl, ap, sym, ◌∙◌, inl, inr, Option, none, some, List, [], ◌∷◌, ◌++◌, Text, bytes, ◌=?◌,
  not, select, Bool-cases,
}
use tick.Api.Server.{
  Config, Request, Action, set_header, write_header, write, Ending, returned, panicked, Handled,
  Handler, panic_recovered, http_request, internal_error, recovered, logged, recoverer,
  request_logger, max_body_bytes, serve,
}

-- A net/http response: the first status that is sent stays, and fixes the headers; a body that is
-- written before sends 200.
pub record Written : Type 0 where
  pub headers : List (Text × Text)
  pub sent : Option (ℕ × List (Text × Text))
  pub content : Text

abbrev pub fresh : Written
fresh = record { headers = []; sent = none; content = [] }

abbrev pub set_entry : Text → Text → List (Text × Text) → List (Text × Text)
set_entry key value headers = (key, value) ∷ select (λ h. not (h.0 =? key)) headers

abbrev pub send : ℕ → Written → Option (ℕ × List (Text × Text)) → Written
send status w none = record w { sent = some (status, w.headers) }
send status w (some _) = w

unfoldable pub act : Action → Written → Written
act (set_header key value) w = record w { headers = set_entry key value w.headers }
act (write_header status) w = send status w w.sent
act (write content) w = let w' = send 200 w w.sent in record w' { content = w'.content ++ content }

unfoldable pub perform : List Action → Written → Written
unfolding act
perform [] w = w
perform (a ∷ rest) w = perform rest (act a w)

-- What the client sees but for the headers: the status that was sent, and the body.
abbrev pub status_sent : Option (ℕ × List (Text × Text)) → Option ℕ
status_sent none = none
status_sent (some (status, _)) = some status

abbrev pub seen : Written → Option ℕ × Text
seen w = (status_sent w.sent, w.content)

abbrev pub status_or : ℕ → Option ℕ → ℕ
status_or default none = default
status_or default (some status) = status

-- The same actions on what is seen.
abbrev see : Action → Option ℕ × Text → Option ℕ × Text
see (set_header key value) v = v
see (write_header status) (s, content) = (some (status_or status s), content)
see (write more) (s, content) = (some (status_or 200 s), content ++ more)

abbrev see_all : List Action → Option ℕ × Text → Option ℕ × Text
see_all [] v = v
see_all (a ∷ rest) v = see_all rest (see a v)

seen-send :
    (n : ℕ) (w : Written) (s : Option (ℕ × List (Text × Text)))
    → w.sent ≡ s
    → seen (send n w s) ≡ (some (status_or n (status_sent s)), w.content)
seen-send n w none e = refl
seen-send n w (some x) e = rw e refl

seen-act : (a : Action) (w : Written) → seen (act a w) ≡ see a (seen w)
unfolding act
seen-act (set_header key value) w = refl
seen-act (write_header status) w = seen-send status w w.sent refl
seen-act (write more) w =
    ap (λ (v : Option ℕ × Text). let r : Option ℕ × Text = (v.0, v.1 ++ more) in r)
      (seen-send 200 w w.sent refl)

seen-perform : (acts : List Action) (w : Written) → seen (perform acts w) ≡ see_all acts (seen w)
unfolding perform
seen-perform [] w = refl
seen-perform (a ∷ rest) w = seen-perform rest (act a w) ∙ ap (see_all rest) (seen-act a w)

see_all-append :
    (xs ys : List Action) (v : Option ℕ × Text) → see_all (xs ++ ys) v ≡ see_all ys (see_all xs v)
see_all-append [] ys v = refl
see_all-append (x ∷ xs) ys v = see_all-append xs ys (see x v)

-- The response to a handler.
abbrev pub seen_of : Handled → Option ℕ × Text
seen_of h = seen (perform h.actions fresh)

module _ (ww_status ww_bytes : List Action → ℕ) where
  -- What the stack makes of what comes out of the timeout, by how that ends.
  abbrev pub Answers : Request → Handled → Handled → Ending → Type 0
  Answers r inner h returned =
      (seen_of h ≡ seen_of inner)
      × (h.logs
          ≡ inner.logs
            ++ http_request r.method r.path (ww_status inner.actions) (ww_bytes inner.actions) r.id
              ∷ [])
  Answers r inner h (panicked value) =
      (seen_of h ≡ (some (status_or 500 (seen_of inner).0), (seen_of inner).1 ++ internal_error))
      × (h.logs ≡ inner.logs ++ panic_recovered value r.id ∷ [])

  seen_of-set_header :
      (h : Handled) (key value : Text)
      → seen_of (record h { actions = set_header key value ∷ h.actions }) ≡ seen_of h
  seen_of-set_header h key value =
      seen-perform (set_header key value ∷ h.actions) fresh ∙ sym (seen-perform h.actions fresh)

  seen_of-panicked :
      (id value : Text) (h : Handled)
      → seen_of (recovered id h (panicked value))
        ≡ (some (status_or 500 (seen_of h).0), (seen_of h).1 ++ internal_error)
  seen_of-panicked id value h =
      let tail =
        set_header (bytes "Content-Type") (bytes "application/json")
        ∷ write_header 500
        ∷ write internal_error
        ∷ [] in
      seen-perform (h.actions ++ tail) fresh
      ∙ see_all-append h.actions tail (none, [])
      ∙ ap (see_all tail) (sym (seen-perform h.actions fresh))

  answered :
      (r : Request) (inner : Handled) (e : Ending)
      → inner.ending ≡ e
      → let l =
          logged
            (http_request r.method r.path (ww_status inner.actions) (ww_bytes inner.actions) r.id)
            inner
            e in
        let h = recovered r.id l l.ending in (h.ending ≡ returned) × Answers r inner h e
  answered r inner returned e = rw e (refl, (refl, refl))
  answered r inner (panicked value) e = rw e (refl, (seen_of-panicked r.id value inner, refl))

  Answers-header :
      (r : Request) (inner h : Handled) (key value : Text) (e : Ending)
      → Answers r inner h e
      → Answers r inner (record h { actions = set_header key value ∷ h.actions }) e
  Answers-header r inner h key value returned a = (seen_of-set_header h key value ∙ a.0, a.1)
  Answers-header r inner h key value (panicked v) a = (seen_of-set_header h key value ∙ a.0, a.1)

  module _ (timeout : ℕ → Handler → Handler) (cfg : Config) where
    -- The stack around any routes, and any timeout, returns whatever the handler does: the response
    -- is the handler's, with one line in the log; or, where the handler panics, a status that it has
    -- already sent or else 500, and the JSON of an internal error behind what it has written, with the
    -- panic in the log in place of that line.
    pub serve_lem :
        (routes : Handler) (r : Request)
        → let h = serve ww_status ww_bytes timeout cfg routes r in
          let inner = timeout cfg.request_timeout (max_body_bytes cfg.max_body_bytes routes) r in
          (h.ending ≡ returned) × Answers r inner h inner.ending
    unfolding serve
    serve_lem routes r =
        let inner = timeout cfg.request_timeout (max_body_bytes cfg.max_body_bytes routes) r in
        let handled =
          recoverer
            (request_logger ww_status ww_bytes
              (timeout cfg.request_timeout (max_body_bytes cfg.max_body_bytes routes)))
            r in
        let (ends, answers) = answered r inner inner.ending refl in
        elim (Bool-cases (r.id =? [])) [
          | inl anonymous ↦ rw anonymous (ends, answers)
          | inr known ↦ rw known (
            ends,
            Answers-header r inner handled (bytes "X-Request-Id") r.id inner.ending answers,
          )
        ]
