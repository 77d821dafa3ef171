-- ===== src/Service/Workers/Statuses.antt =====
-- The status in which the workers of internal/service/service.go leave the devices.
use mathlib.Core.Path.{subst}
use iot_api.Common.{
  ◌≡◌, ◌≢◌, refl, ap, ◌∙◌, ◌⊎◌, inl, inr, String, false, List, [], ◌∷◌, ◌++◌, map, All, All-middle,
  All-append, In, In-All, arith, ok, ◌==◌, eq_iff,
}
use iot_api.Float64.{Float64}
use iot_api.Models.{Device, status_online}
use iot_api.GoTime.{is_zero}
use iot_api.Store.{Store}
use iot_api.Store.Laws.{StoreLaws}
use iot_api.Service.{Service, State}
use iot_api.Service.Workers.{
  Work, Stage, received, stored, returned, move, System, moved, Run, over, first,
}
use iot_api.Service.Workers.Ends.{Returned}
use iot_api.Service.Workers.Marked.{
  From, IsTimed, works_of, From-moved, get-moved, Same, IsMarked, IsOpen, move-IsOpen,
}

not-In-Returned :
    (a : Stage) (stages : List Stage) → a ≢ returned → All Returned stages → ¬ In a stages
not-In-Returned a [] n all i = i
not-In-Returned a (s ∷ stages) n all (inl e) = n (e ∙ all.0)
not-In-Returned a (s ∷ stages) n all (inr i) = not-In-Returned a stages n all.1 i

From-received :
    (works some_of : List Work)
    → ((w : Work) → In w some_of → In w works)
    → All (From works) (map received some_of)
From-received works [] sub = tt
From-received works (w ∷ some_of) sub =
    (sub w (inl refl), From-received works some_of (λ v i. sub v (inr i)))

In-received : (w : Work) (works : List Work) → In w works → In (received w) (map received works)
In-received w (v ∷ works) (inl e) = inl (ap received e)
In-received w (v ∷ works) (inr i) = inr (In-received w works i)
In-received w [] i = absurd i

module _ {S P C : Type 0} (o : Store S) (laws : StoreLaws o) (svc : Service P C)
    (sprintf : String → Float64 → String → Float64 → String) (works : List Work) where
  From-next :
      (x : System o svc sprintf) (before after : List Stage) (s : Stage)
      → x.stages ≡ before ++ s ∷ after
      → All (From works) x.stages
      → From works s × All (From works) (before ++ (move o svc sprintf s x.state).0 ∷ after)
  From-next x before after s e from =
      let (left, own, right) =
        All-middle (From works) before s after (subst (All (From works)) e from) in
      (
        own,
        All-append (From works) before _ left
            (From-moved o laws svc sprintf works s x.state own, right),
      )

  module _ (j : String) (d : Device) where
    -- A device with a work is marked when everybody has returned.
    run-IsMarked :
        (set : All IsTimed works) (w : Work) (listed : In w works) (its : w.sample.device_id ≡ j)
        (last x : System o svc sprintf)
        → Run o svc sprintf last x
        → All Returned last.stages
        → All (From works) x.stages
        → IsOpen o laws svc sprintf works j d w x.stages x.state.store
        → IsMarked o laws svc sprintf works j d last.state.store
    run-IsMarked set w listed its last x over done from (inl m) = m
    run-IsMarked set w listed its last x over done from (inr (e, inl i)) =
        absurd (not-In-Returned (received w) last.stages (λ h. cc) done i)
    run-IsMarked set w listed its last x over done from (inr (e, inr i)) =
        absurd (not-In-Returned (stored w) last.stages (λ h. cc) done i)
    run-IsMarked set w listed its last x (first (moved before s after n e) run) done from open_ =
        let (own, froms) = From-next x before after s e from in
        run-IsMarked set w listed its last _ run done froms (
          move-IsOpen o laws svc sprintf works j d set w listed its before after s x.state own
            (subst (λ l. IsOpen o laws svc sprintf works j d w l x.state.store) e open_))

    -- One without stays as it is.
    run-Same :
        All (λ w. (w.sample.device_id == j) ≡ false) works
        → (last x : System o svc sprintf) → Run o svc sprintf last x
        → All (From works) x.stages
        → Same o laws svc sprintf works j d x.state.store
        → Same o laws svc sprintf works j d last.state.store
    run-Same others last x over from e = e
    run-Same others last x (first (moved before s after n f) run) from e =
        let (own, froms) = From-next x before after s f from in
        run-Same others last _ run froms (elim (get-moved o laws svc sprintf works j d s x.state) [
          | inl h ↦ h ∙ e
          | inr (w, same, its, h) ↦
              let other =
                In-All (λ v. (v.sample.device_id == j) ≡ false) w works others
                  (subst (From works) same own) in
              absurd (ground (arith, other, (eq_iff w.sample.device_id j).1 its))
        ])

  -- Over a store that keeps its contract, let workers process samples whose times are set,
  -- interleaved in whatever way, until all have returned. Then a registered device that one of the
  -- samples is of is online and was last seen at the time of one of them, and is otherwise as it
  -- was; a registered device that none is of is wholly as it was.
  pub run-Marked :
      (st : State S P C) (last : System o svc sprintf)
      → Run o svc sprintf last (record { stages = map received works; state = st })
      → All (λ w. is_zero w.sample.timestamp ≡ false) works
      → All Returned last.stages
      → (j : String) (d : Device) → o.get_device j st.store ≡ ok d
      → ((w : Work) × In w works
          × (w.sample.device_id ≡ j)
          × (o.get_device j last.state.store
              ≡ ok (record d { status = status_online; last_seen_at = w.sample.timestamp })))
        ⊎ (All (λ w. (w.sample.device_id == j) ≡ false) works
            × (o.get_device j last.state.store ≡ ok d))
  run-Marked st last run set done j d e =
      let from = From-received works works (λ w i. i) in
      elim (works_of j works) [
        | inl (w, i, its) ↦
            let (v, k, its', h) =
              run-IsMarked j d set w i its last _ run done from
                (inr (e, inl (In-received w works i))) in
            inl (v, k, its', h ∙ rw (In-All IsTimed v works set k) refl)
        | inr others ↦ inr (others, run-Same j d others last _ run from e)
      ]
