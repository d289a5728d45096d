-- ===== src/Tests/Makers.antt =====
-- A checker's verdict that records the maker's spec, and a verdict on itself.
use boardroom_os.Base.{
  ℕ, ◌+◌, ◌≤◌, ◌<◌, String, ◌≡◌, refl, true, Option, none, some, [], ◌∷◌, arith,
}
use mathlib.Core.Option.{some-injective}
use boardroom_os.Base.Result.{ok, raise, recursion_error}
use boardroom_os.Base.Dict.{get}
use boardroom_os.Spec.{
  CreatedSpec, created_spec, MakerCheckerContext, no_context, context, MakerTicketSpec, no_spec,
  maker_ticket_spec,
}
use boardroom_os.Completion.Stage.{
  DeliveryStage, Specs, maker_by_id, own_stage, is_verdict, resolved_maker_ticket_spec,
  delivery_mainline_stage,
}
use boardroom_os.Completion.Depth.{delivery_mainline_stage-ok, delivery_mainline_stage-raise}

-- The number of makers' specs that a spec has inside.
mutual
  rank : CreatedSpec → ℕ
  rank (created_spec r s w c) = rank_of_context c

  rank_of_context : MakerCheckerContext → ℕ
  rank_of_context no_context = 0
  rank_of_context (context m i) = rank_of_maker m

  rank_of_maker : MakerTicketSpec → ℕ
  rank_of_maker no_spec = 0
  rank_of_maker (maker_ticket_spec s) = rank s + 1

nobody : (i : Option String) → maker_by_id i [] ≡ none
unfolding maker_by_id get
nobody i = ground arith

-- With no other specs a maker is found only inside of the spec.
rank_falls : (s m : CreatedSpec) → resolved_maker_ticket_spec (some s) [] ≡ some m → rank m < rank s
unfolding resolved_maker_ticket_spec rank
rank_falls (created_spec r d w no_context) m h = absurd (cc)
rank_falls (created_spec r d w (context no_spec i)) m h = absurd (cc (nobody i, h))
rank_falls (created_spec r d w (context (maker_ticket_spec k) i)) m h =
    rw (← some-injective k m h) (omega arith)

abbrev build_spec : CreatedSpec
build_spec = created_spec (some "source_code_delivery") none none no_context

abbrev verdict : CreatedSpec
verdict =
    created_spec (some "maker_checker_verdict") none none
      (context (maker_ticket_spec build_spec) none)

delivery_mainline_stage-ok_example :
    (o : Option DeliveryStage) × ((depth : ℕ)
      → rank verdict + 2 ≤ depth
      → delivery_mainline_stage depth (some verdict) [] ≡ ok o)
delivery_mainline_stage-ok_example = delivery_mainline_stage-ok [] rank rank_falls verdict

abbrev self_verdict : CreatedSpec
self_verdict =
    created_spec (some "maker_checker_verdict") none none (context no_spec (some "tkt_1"))

abbrev circle : Specs
circle = ("tkt_1", self_verdict) ∷ []

verdict_there : is_verdict (some self_verdict) ≡ true
unfolding is_verdict
verdict_there = refl

no_stage : own_stage (some self_verdict) ≡ none
unfolding own_stage
no_stage = refl

on_itself : resolved_maker_ticket_spec (some self_verdict) circle ≡ some self_verdict
unfolding resolved_maker_ticket_spec get
on_itself = refl

delivery_mainline_stage-raise_example :
    delivery_mainline_stage 1000 (some self_verdict) circle ≡ raise recursion_error
delivery_mainline_stage-raise_example =
    delivery_mainline_stage-raise 1000 self_verdict circle verdict_there no_stage on_itself
