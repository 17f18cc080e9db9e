-- ===== src/Sources/Lives.antt =====
-- Every step keeps recordings apart.
use capture_room.Prelude.{
  ◌≡◌, refl, sym, ◌∙◌, subst, inl, inr, ℕ, Bool, true, false, Option, none, some, List, String,
  str_eq, get, put, delete, ℤ, get-put, get-put_other, get-delete, get-delete_other, Bool-cases,
  str_eq→≡,
}
use capture_room.Sources.{Reservation, MonitorPipeline, SourceManager, new}
use capture_room.Sources.Recordings.{
  StartRecordingRequest, RecordingStart, Surroundings, Started, start_with, begin_start_recording,
  finish_start_recording,
}
use capture_room.Sources.Places.{
  at, places, IsAlone, Turns-IsAlone, Claim, claim, Apart, Turned, Settled, Turned-Apart,
  Turns-reservation, at_id,
}
use capture_room.Sources.Turning.{
  put_session-Turned, begin_stop_recording-Turned, finish_stop-Turned, publish-Turned,
  report_leg_failure-Turned, disconnect-Turned,
}
use capture_room.Sources.Marking.{
  finish_start_recording-Settled, finish_start_recording-reserved, mark_session-Turned,
  update_active_marker-Turned, delete_active_marker-Turned,
}
use capture_room.Sources.Begin.{
  Admitted, begin_start_recording-elim, Admitted-Disjoint, Spares-Disjoint,
}
use capture_room.Sources.Runs.{
  World, after, IsFresh, Step, connects, disconnects, begins, finishes, runs, marks, updates,
  deletes, reports, stops, publishes, closes, Reaches, idle, then, IsInFlight, Sound,
}

-- A step that neither begins nor ends a start.
Turned-Sound :
    (w : World) (m : SourceManager)
    → Turned w.manager m
    → Sound w
    → Sound (record w { manager = m })
Turned-Sound w m t h = record {
  alone = λ i. Turns-IsAlone (t i) (h.alone i);
  apart = Turned-Apart false w.manager m t h.alone h.apart;
  flying =
      λ i start g. let f = h.flying i start g in (f.0, Turns-reservation (t start.dto.id) ∙ f.1);
}

finishes-Sound :
    (w : World) (id : String) (start : RecordingStart) (started : Started)
    → get id w.starts ≡ some start
    → Sound w
    → Sound (record {
      manager = (finish_start_recording started start w.manager).0;
      starts = delete id w.starts;
    })
finishes-Sound w id start started g h = record {
  alone = λ i. Turns-IsAlone (t i) (h.alone i);
  apart = Turned-Apart true w.manager m t h.alone h.apart;
  flying = λ i s.
      at_id (λ i. get i (delete id w.starts) ≡ some s → IsInFlight i s m) id i
        (λ e. let n = get-delete id w.starts in absurd (cc))
        (λ d e. other i s d (sym (get-delete_other id i w.starts d) ∙ e));
}
  where
    m : SourceManager
    m = (finish_start_recording started start w.manager).0

    t : Settled w.manager m
    t = finish_start_recording-Settled started start w.manager (h.flying id start g).1

    other :
        (i : String) (s : RecordingStart)
        → str_eq id i ≡ false
        → get i w.starts ≡ some s
        → IsInFlight i s m
    other i s d e =
        let f = h.flying i s e in
        (
          f.0,
          rw (finish_start_recording-reserved started start w.manager) (
              get-delete_other start.dto.id s.dto.id w.manager.reserved
                (rw ((h.flying id start g).0, f.0) d)
              ∙ f.1),
        )

begins-Sound :
    (w : World) (req : StartRecordingRequest) (paths : List String) (offset : Option ℤ)
    (env : Surroundings)
    → IsFresh env.uuid w
    → Sound w
    → Sound (after (begin_start_recording req paths offset env w.manager) w)
begins-Sound w req paths offset env fresh h =
    begin_start_recording-elim (λ b. Sound (after b w)) req paths offset env w.manager (λ e. h)
      let_in
  where
    id : String
    id = env.uuid

    reserved : Reservation
    reserved = record { source_id = req.source_id; paths = paths }

    m : SourceManager
    m = record w.manager { reserved = put id reserved w.manager.reserved }

    taken : places id m ≡ at none (some reserved) none
    taken = rw (get-put id reserved w.manager.reserved) (cc)

    other : (i : String) → str_eq id i ≡ false → places i m ≡ places i w.manager
    other i d = rw (get-put_other id i reserved w.manager.reserved d) refl

    new_claim : Claim
    new_claim = record { source_id = req.source_id; paths = paths }

    is_new : (a : Claim) → claim (places id m) ≡ some a → new_claim ≡ a
    is_new a = rw taken (λ e. cc)

    apart : Admitted req.source_id paths w.manager → Apart m
    apart adm i j a b = elim (Bool-cases (str_eq id i)) [
      | inl e ↦ elim (Bool-cases (str_eq id j)) [
        | inl k ↦ λ c d n. absurd (n (sym (str_eq→≡ id i e) ∙ str_eq→≡ id j k))
        | inr k ↦
            rw (← str_eq→≡ id i e, other j k)
              (λ c d n.
                rw (← is_new a c)
                  (Spares-Disjoint req.source_id paths b
                    (Admitted-Disjoint req.source_id paths w.manager j b adm d)).0)
      ]
      | inr e ↦ elim (Bool-cases (str_eq id j)) [
        | inl k ↦
            rw (← str_eq→≡ id j k, other i e)
              (λ c d n.
                rw (← is_new b d)
                  (Spares-Disjoint req.source_id paths a
                    (Admitted-Disjoint req.source_id paths w.manager i a adm c)).1)
        | inr k ↦ rw (other i e, other j k) (h.apart i j a b)
      ]
    ]

    flying :
        (start : RecordingStart)
        → start.dto.id ≡ id
        → start.dto.source_id ≡ req.source_id
        → start.dto.output_paths ≡ paths
        → (i : String) (s : RecordingStart) → get i (put id start w.starts) ≡ some s
        → IsInFlight i s m
    flying start e f g i s =
        at_id (λ i. get i (put id start w.starts) ≡ some s → IsInFlight i s m) id i
          (rw (get-put id start w.starts) (λ k. first k))
          (λ d. rw (get-put_other id i start w.starts d) (λ k. rest d k))
      where
        first : some start ≡ some s → IsInFlight id s m
        first k =
            subst (λ (o : Option RecordingStart). ForOption o) k
              (e, rw (e, f, g) (get-put id reserved w.manager.reserved))
          where
            ForOption : Option RecordingStart → Type 0
            ForOption none = Unit
            ForOption (some s) = IsInFlight id s m

        rest : str_eq id i ≡ false → get i w.starts ≡ some s → IsInFlight i s m
        rest d k =
            let l = h.flying i s k in
            (l.0, get-put_other id s.dto.id reserved w.manager.reserved (rw l.0 d) ∙ l.1)

    let_in :
        (c : Bool) (t : Option ℕ) (o : Option ℤ) (monitor : MonitorPipeline)
        → Admitted req.source_id paths w.manager
        → Sound (after (start_with c t o monitor req paths env w.manager) w)
    let_in c t o monitor a = record {
      alone = λ i.
          at_id (λ i. IsAlone (places i m)) id i (rw taken tt) (λ d. rw (other i d) (h.alone i));
      apart = apart a;
      flying = flying _ refl refl refl;
    }

Step-Sound : (w v : World) → Step w v → Sound w → Sound v
Step-Sound w v (connects source monitor) h = record {
  alone = h.alone;
  apart = h.apart;
  flying = h.flying;
}
Step-Sound w v (disconnects source) h = Turned-Sound w _ (disconnect-Turned source w.manager) h
Step-Sound w v (begins req paths offset env fresh) h = begins-Sound w req paths offset env fresh h
Step-Sound w v (finishes id start started g) h = finishes-Sound w id start started g h
Step-Sound w v (runs id s legs g) h =
    Turned-Sound w _ (put_session-Turned id s (record s { legs = legs }) w.manager g refl refl) h
Step-Sound w v (marks now uuid id req) h =
    Turned-Sound w _ (mark_session-Turned now uuid id req w.manager) h
Step-Sound w v (updates u marker_id id) h =
    Turned-Sound w _ (update_active_marker-Turned u marker_id id w.manager) h
Step-Sound w v (deletes marker_id id) h =
    Turned-Sound w _ (delete_active_marker-Turned marker_id id w.manager) h
Step-Sound w v (reports f) h = Turned-Sound w _ (report_leg_failure-Turned f w.manager) h
Step-Sound w v (stops id) h = Turned-Sound w _ (begin_stop_recording-Turned id w.manager) h
Step-Sound w v (publishes dto) h = Turned-Sound w _ (publish-Turned dto w.manager) h
Step-Sound w v (closes id) h = Turned-Sound w _ (finish_stop-Turned id w.manager) h

pub Reaches-Sound : (w : World) → Reaches w → Sound w
unfolding new
Reaches-Sound w (idle clock domain) = record {
  alone = λ i. tt;
  apart = λ i j a b e. absurd (cc);
  flying = λ i start e. absurd (cc);
}
Reaches-Sound w (then {w = u} h step) = Step-Sound u w step (Reaches-Sound u h)

-- In any state that the node can reach, whatever the order of requests, background tasks and changes of
-- the pipelines, and if each start's identifier is unused: two different recordings, starting or
-- recording, have different sources and share no path; a recording is reserved, recording or stopping,
-- and in no two of these at once; and each start in flight still has the reservation of its source
-- and its paths.
pub Reaches-Apart :
    (w : World)
    → Reaches w
    → Apart w.manager
      × ((i : String) → IsAlone (places i w.manager))
      × ((i : String) (start : RecordingStart)
          → get i w.starts ≡ some start
          → IsInFlight i start w.manager)
Reaches-Apart w h = let s = Reaches-Sound w h in (s.apart, s.alone, s.flying)
