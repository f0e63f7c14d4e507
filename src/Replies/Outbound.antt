-- ===== src/Replies/Outbound.antt =====
-- When a reply is answered without a person.
use open_reachout.Base.{
  ℕ, ◌≡◌, refl, ap, sym, String, Bool, true, false, ◌&&◌, ◌||◌, List, Result, ok, err, arith, ℕ_eq,
  leb, contains, Bool-cases, inl, inr,
}
use open_reachout.Envelope.{injection_suspects}
use open_reachout.Replies.{
  Action, intent_action, outbound_actions, Output, RouteDecision, Router, action_eq, is_hostile,
  is_nonempty, opts_out, act_on, decide, decide_on, opted_out, route,
}

-- What holds when a decision sends a message.
pub record IsAnswerable {F : Type 0} (router : Router F) (body : String) (exchanges : ℕ)
    (allowed : List Action) (d : RouteDecision F) : Type 0 where
  pub no_opt_out : opts_out router.python body ≡ false
  pub no_tripwire : is_nonempty (injection_suspects router.python body) ≡ false
  pub output : Output F
  pub classified : router.classify body ≡ ok output
  pub no_injection : output.injection_suspected ≡ false
  pub not_hostile : is_hostile output.intent ≡ false
  pub confident : router.below_floor output.confidence ≡ false
  pub its_action : d.action ≡ intent_action output.intent
  pub first_exchange : exchanges ≡ 0
  pub is_allowed : contains allowed d.action ≡ true

module _ {F : Type 0} (router : Router F) (exchanges : ℕ) (allowed : List Action) where
  -- The tests that an output has passed when the decision is not an escalation.
  record Decided (suspicious : Bool) (o : Output F) (d : RouteDecision F) : Type 0 where
    calm : suspicious ≡ false
    clean : o.injection_suspected ≡ false
    friendly : is_hostile o.intent ≡ false
    sure : router.below_floor o.confidence ≡ false
    acts : act_on router o (intent_action o.intent) exchanges allowed ≡ d

  decided :
      (s : Bool) (o : Output F) (d : RouteDecision F)
      → decide router s exchanges allowed o ≡ d
      → contains outbound_actions d.action ≡ true
      → Decided s o d
  decided s o d e out = elim (Bool-cases (s || o.injection_suspected)) [
    | inl t ↦ cc (rw (sym (rw t at e)) at out)
    | inr f ↦ elim (Bool-cases (is_hostile o.intent)) [
      | inl t ↦ cc (rw (sym (rw (f, t) at e)) at out)
      | inr g ↦ elim (Bool-cases (router.below_floor o.confidence)) [
        | inl t ↦ cc (rw (sym (rw (f, g, t) at e)) at out)
        | inr h ↦ record {
          calm = ground (arith, f);
          clean = ground (arith, f);
          friendly = g;
          sure = h;
          acts = rw (f, g, h) at e;
        }
      ]
    ]
  ]

  acted :
      (o : Output F) (a : Action) (d : RouteDecision F)
      → act_on router o a exchanges allowed ≡ d
      → contains outbound_actions d.action ≡ true
      → (d.action ≡ a) × (exchanges ≡ 0) × (contains allowed d.action ≡ true)
  acted o a d e out = elim (Bool-cases (contains outbound_actions a && leb 1 exchanges)) [
    | inl t ↦ cc (rw (sym (rw t at e)) at out)
    | inr f ↦ elim (Bool-cases (contains allowed a)) [
      | inr g ↦ cc (rw (sym (rw (f, g) at e)) at out)
      | inl g ↦
          let its : a ≡ d.action = ap (λ (x : RouteDecision F). x.action) (rw (f, g) at e) in
          (sym its, ground (arith, f, rw (sym its) at out), rw its at g)
    ]
  ]

  answered :
      (body : String) (x : Result (Output F)) (d : RouteDecision F)
      → opts_out router.python body ≡ false
      → router.classify body ≡ x
      → decide_on router (is_nonempty (injection_suspects router.python body)) exchanges allowed x
        ≡ ok d
      → contains outbound_actions d.action ≡ true
      → IsAnswerable router body exchanges allowed d
  answered body (err z) d clear is_x e out = cc
  answered body (ok o) d clear is_x e out =
      let p =
        decided (is_nonempty (injection_suspects router.python body)) o d (ground (arith, e)) out in
      let (its, fresh, fine) = acted o (intent_action o.intent) d p.acts out in
      record {
        no_opt_out = clear;
        no_tripwire = p.calm;
        output = o;
        classified = is_x;
        no_injection = p.clean;
        not_hostile = p.friendly;
        confident = p.sure;
        its_action = its;
        first_exchange = fresh;
        is_allowed = fine;
      }

-- A reply is answered with a message only if it has no opt-out phrase and trips no injection wire, the
-- model has classified it as not hostile, without a suspicion of injection and not below the
-- confidence floor, the action is the one of its intent and allowed, and no exchange was made before.
pub route-IsAnswerable :
    {F : Type 0} (router : Router F) (body : String) (exchanges : ℕ) (allowed : List Action)
    (d : RouteDecision F)
    → route router body exchanges allowed ≡ ok d
    → contains outbound_actions d.action ≡ true
    → IsAnswerable router body exchanges allowed d
unfolding route
route-IsAnswerable router body exchanges allowed d e out =
    elim (Bool-cases (opts_out router.python body)) [
      | inr f ↦
          answered router exchanges allowed body (router.classify body) d f refl (rw f at e) out
      | inl t ↦
          let same : opted_out router ≡ d = ground (arith, rw t at e) in cc (rw (sym same) at out)
    ]
