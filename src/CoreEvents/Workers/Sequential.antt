-- ===== src/CoreEvents/Workers/Sequential.antt =====
-- handle_message and handle_all are runs of the steps.
use quick_bite_analytics_ser.Prelude.{
  String, ◌==◌, ◌≡◌, refl, Bool, true, false, Bool-cases, inl, inr, ◌||◌, Option, none, some, List,
  [], ◌∷◌,
}
use quick_bite_analytics_ser.Go.Effect.{Result, ok, fail}
use quick_bite_analytics_ser.CoreEvents.Consumer.{
  Envelope, EventHandler, Consumer, Session, handler_for, finish, dispatch, on_marked, on_envelope,
  handle_message, handle_all,
}
use quick_bite_analytics_ser.CoreEvents.Workers.{
  Shared, marks, skips, refuses, dismisses, writes, succeeds, fails, unmarks, Run, stop, step,
}

module _ {W : Type 0} (c : Consumer W) (seen : W → String → Bool)
    (keeps : (t : String) (h : EventHandler W)
      → handler_for t c.handlers ≡ some h
      → (payload : String) (w : W) (id : String) → seen (h payload w).1 id ≡ seen w id) where
  -- no delivery in hand
  abbrev pub idle : W → List Envelope → Shared W
  idle w applied = record { world = w; handling = []; failed = []; applied = applied }

  abbrev pub Reaches : W → List Envelope → W → Type 0
  Reaches w applied w' = (applied' : List Envelope) × Run c seen (idle w applied) (idle w' applied')

  finish-Run :
      (e : Envelope) (r : Result (Unit {0})) (w w' : W) (applied : List Envelope) (s : Session W)
      → ((id : String) → seen w' id ≡ seen w id)
      → (start : W)
      → Run c seen (idle start applied) (record (idle w applied) { handling = e ∷ [] })
      → Reaches start applied (finish c e r w' s).world
  unfolding finish
  finish-Run e (ok _) w w' applied s kept start r =
      (e ∷ applied, step (step r (writes _ w' kept)) (succeeds _ [] [] e refl))
  finish-Run e (fail error) w w' applied s kept start r = (
    applied,
    step (step (step r (writes _ w' kept)) (fails _ [] [] e refl))
        (unmarks _ [] [] e _ _ refl refl),
  )

  dispatch-Run :
      (e : Envelope) (o : Option (EventHandler W)) (w : W) (applied : List Envelope) (s : Session W)
      → handler_for e.event_type c.handlers ≡ o
      → (start : W)
      → Run c seen (idle start applied) (record (idle w applied) { handling = e ∷ [] })
      → Reaches start applied (dispatch c e o w s).world
  unfolding dispatch
  dispatch-Run e none w applied s is start r = (applied, step r (dismisses _ [] [] e refl is))
  dispatch-Run e (some h) w applied s is start r =
      finish-Run e _ w _ applied s (keeps e.event_type h is e.payload w) start r

  on_marked-Run :
      (e : Envelope) (r : Result Bool) (w w' : W) (applied : List Envelope) (s : Session W)
      → c.dedupe.mark_seen e.event_id w ≡ (r, w')
      → Reaches w applied (on_marked c e r w' s).world
  unfolding on_marked
  on_marked-Run e (fail error) w w' applied s is = (applied, step stop (refuses _ e error w' is))
  on_marked-Run e (ok false) w w' applied s is = (applied, step stop (skips _ e w' is))
  on_marked-Run e (ok true) w w' applied s is =
      dispatch-Run e _ w' applied s refl w (step stop (marks _ e w' is))

  on_envelope-Run :
      (r : Result Envelope) (applied : List Envelope) (s : Session W)
      → Reaches s.world applied (on_envelope c r s).world
  unfolding on_envelope
  on_envelope-Run (fail error) applied s = (applied, stop)
  on_envelope-Run (ok e) applied s = elim (Bool-cases (e.event_id == "" || e.event_type == "")) [
    | inl malformed ↦ rw malformed (applied, stop)
    | inr complete ↦ rw complete (on_marked-Run e _ s.world _ applied s refl)
  ]

  Run-append : {s t u : Shared W} → Run c seen s t → Run c seen t u → Run c seen s u
  Run-append r stop = r
  Run-append r (step q st) = step (Run-append r q) st

  -- The messages that one process handles in turn are a run of the steps, whatever each comes to: from
  -- no delivery in hand to none, with the world that the messages leave.
  pub handle_all-Run :
      (unmarshal : String → Result Envelope) (bodies : List String) (applied : List Envelope)
      (s : Session W)
      → Reaches s.world applied (handle_all unmarshal c bodies s).world
  unfolding handle_all handle_message
  handle_all-Run unmarshal [] applied s = (applied, stop)
  handle_all-Run unmarshal (body ∷ bodies) applied s =
      let (now, first) = on_envelope-Run (unmarshal body) applied s in
      let (all, others) = handle_all-Run unmarshal bodies now (handle_message unmarshal c body s) in
      (all, Run-append first others)
