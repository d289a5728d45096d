-- ===== src/Completion/Depth.antt =====
-- How deep `delivery_mainline_stage_for_ticket` of backend/app/core/workflow_completion.py goes.
use boardroom_os.Base.{
  ◌-◌, subst, ℕ, zero, suc, ◌+◌, ◌≤◌, ◌<◌, ◌≡◌, refl, Bool, true, false, Option, none, some, arith,
  if◌then◌else◌,
}
use boardroom_os.Base.Result.{Result, ok, raise, recursion_error, IsOk, IsOk-value}
use boardroom_os.Spec.{CreatedSpec}
use boardroom_os.Completion.Stage.{
  DeliveryStage, Specs, own_stage, is_verdict, resolved_maker_ticket_spec, delivery_mainline_stage,
}

-- The body of a frame, given what it shows on its own and what its call returns.
abbrev frame :
    Option DeliveryStage → Bool → Result (Option DeliveryStage) → Result (Option DeliveryStage)
frame own verdict maker = elim own [
  | some stage ↦ ok (some stage)
  | none ↦ if verdict then maker else ok none
]

frame-IsOk :
    (own : Option DeliveryStage) (verdict : Bool) (maker : Result (Option DeliveryStage))
    → IsOk maker
    → IsOk (frame own verdict maker)
frame-IsOk (some stage) verdict maker h = tt
frame-IsOk none true maker h = h
frame-IsOk none false maker h = tt

frame_cong :
    (own : Option DeliveryStage) (verdict : Bool) (m n : Result (Option DeliveryStage))
    (o : Option DeliveryStage)
    → ((q : Option DeliveryStage) → m ≡ ok q → n ≡ ok q)
    → frame own verdict m ≡ ok o
    → frame own verdict n ≡ ok o
frame_cong (some stage) verdict m n o f h = h
frame_cong none true m n o f h = f o h
frame_cong none false m n o f h = h

frame-raise :
    (own : Option DeliveryStage) (verdict : Bool) (maker : Result (Option DeliveryStage))
    → own ≡ none
    → verdict ≡ true
    → maker ≡ raise recursion_error
    → frame own verdict maker ≡ raise recursion_error
frame-raise (some stage) verdict maker e v h = absurd (cc)
frame-raise none true maker e v h = h
frame-raise none false maker e v h = absurd (cc)

-- One more frame does not change what is returned.
delivery_mainline_stage-suc :
    (depth : ℕ) (spec : Option CreatedSpec) (specs : Specs) (o : Option DeliveryStage)
    → delivery_mainline_stage depth spec specs ≡ ok o
    → delivery_mainline_stage (suc depth) spec specs ≡ ok o
unfolding delivery_mainline_stage
delivery_mainline_stage-suc zero spec specs o h = absurd (cc)
delivery_mainline_stage-suc (suc depth) spec specs o h =
    frame_cong (own_stage spec) (is_verdict spec) _ _ o
      (delivery_mainline_stage-suc depth (resolved_maker_ticket_spec spec specs) specs) h

more_frames :
    (extra depth deeper : ℕ) (spec : Option CreatedSpec) (specs : Specs) (o : Option DeliveryStage)
    → deeper ≡ extra + depth
    → delivery_mainline_stage depth spec specs ≡ ok o
    → delivery_mainline_stage deeper spec specs ≡ ok o
more_frames zero depth deeper spec specs o e h =
    let same : depth ≡ deeper = omega (arith, e) in
    subst (λ d. delivery_mainline_stage d spec specs ≡ ok o) same h
more_frames (suc extra) depth zero spec specs o e h = absurd (omega (arith, e))
more_frames (suc extra) depth (suc deeper) spec specs o e h =
    delivery_mainline_stage-suc deeper spec specs o
      (more_frames extra depth deeper spec specs o (omega (arith, e)) h)

frames_from :
    (least depth : ℕ) (spec : Option CreatedSpec) (specs : Specs) (o : Option DeliveryStage)
    → delivery_mainline_stage least spec specs ≡ ok o
    → least ≤ depth
    → delivery_mainline_stage depth spec specs ≡ ok o
frames_from least depth spec specs o h enough =
    more_frames (depth - least) least depth spec specs o (omega (arith, enough)) h

-- No spec shows no stage.
none-IsOk : (depth : ℕ) (specs : Specs) → IsOk (delivery_mainline_stage (suc depth) none specs)
unfolding delivery_mainline_stage
none-IsOk depth specs = tt

module _ (specs : Specs) (rank : CreatedSpec → ℕ)
    (falls : (s m : CreatedSpec)
      → resolved_maker_ticket_spec (some s) specs ≡ some m
      → rank m < rank s) where
  maker-IsOk :
      (depth : ℕ) (s : CreatedSpec) (o : Option CreatedSpec)
      → resolved_maker_ticket_spec (some s) specs ≡ o
      → rank s + 1 ≤ depth
      → ((m : CreatedSpec)
          → rank m + 2 ≤ depth
          → IsOk (delivery_mainline_stage depth (some m) specs))
      → IsOk (delivery_mainline_stage depth o specs)
  maker-IsOk zero s o e h ih = absurd (omega (arith, h))
  maker-IsOk (suc depth) s none e h ih = none-IsOk depth specs
  maker-IsOk (suc depth) s (some m) e h ih = ih m (omega (arith, h, falls s m e))

  enough-IsOk :
      (depth : ℕ) (s : CreatedSpec)
      → rank s + 2 ≤ depth
      → IsOk (delivery_mainline_stage depth (some s) specs)
  unfolding delivery_mainline_stage
  enough-IsOk zero s h = absurd (omega (arith, h))
  enough-IsOk (suc depth) s h =
      frame-IsOk (own_stage (some s)) (is_verdict (some s)) _
        (maker-IsOk depth s _ refl (omega (arith, h)) (enough-IsOk depth))

-- Where the maker's spec of a spec always has a smaller rank than the spec, there is one answer for a
-- spec that every depth of at least the spec's rank and two returns.
pub delivery_mainline_stage-ok :
    (specs : Specs) (rank : CreatedSpec → ℕ)
    → ((s m : CreatedSpec) → resolved_maker_ticket_spec (some s) specs ≡ some m → rank m < rank s)
    → (s : CreatedSpec)
    → (o : Option DeliveryStage) × ((depth : ℕ)
        → rank s + 2 ≤ depth
        → delivery_mainline_stage depth (some s) specs ≡ ok o)
delivery_mainline_stage-ok specs rank falls s =
    let (o, found) = IsOk-value _ (enough-IsOk specs rank falls (rank s + 2) s (omega arith)) in
    (o, λ depth enough. frames_from (rank s + 2) depth (some s) specs o found enough)

-- A verdict that shows no stage of its own and is recorded as the verdict on itself raises at every
-- depth.
pub delivery_mainline_stage-raise :
    (depth : ℕ) (s : CreatedSpec) (specs : Specs)
    → is_verdict (some s) ≡ true
    → own_stage (some s) ≡ none
    → resolved_maker_ticket_spec (some s) specs ≡ some s
    → delivery_mainline_stage depth (some s) specs ≡ raise recursion_error
unfolding delivery_mainline_stage
delivery_mainline_stage-raise zero s specs verdict own itself = refl
delivery_mainline_stage-raise (suc depth) s specs verdict own itself =
    frame-raise (own_stage (some s)) (is_verdict (some s)) _ own verdict
      (rw itself (delivery_mainline_stage-raise depth s specs verdict own itself))
