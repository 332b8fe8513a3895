-- ===== src/Sched/Single.antt =====
-- src/tao_sched.cpp: a push to a runtime of one thread that is set up by default.
use xitao.Prelude.{
  ℕ, ◌*◌, ◌%◌, ◌≡◌, ◌⊎◌, refl, ap, Bool, true, false, Option, none, List, [], ◌∷◌, inl, arith,
  ℕ_discrete,
}
use xitao.Prelude.Int.{ℤ, pos}
use xitao.Prelude.Member.{In}
use xitao.Prelude.Result.{ok, exit}
use xitao.Layout.{Place}
use xitao.Layout.Widths.{IsWidth}
use xitao.Layout.Default.{IsSized}
use xitao.Tasks.{Runtime}
use xitao.Sched.{
  Scheduler, Environment, no_places, wanted_queue, xitao_init_hw, xitao_push, endless,
}
use xitao.Sched.Places.{IsEmpty, xitao_init_hw-places}
use xitao.Sched.Push.{xitao_push_endless}

no_places-In : (places : List Place) → ((p : Place) → In p places → ⊥) → no_places places ≡ true
no_places-In [] none_in = refl
no_places-In (p ∷ places) none_in = absurd (none_in p (inl refl))

no_IsWidth : (w : ℕ) → IsWidth 1 w → ⊥
no_IsWidth w width = elim (ℕ_discrete w 1) [
  | yes one ↦ absurd (width.no_root (ap (λ (x : ℕ). x * x) one))
  | no more ↦
      let some = width.some_width in
      let rest : 1 % w ≡ 1 = grind arith in let none = width.divides in absurd (omega arith)
]

-- With one thread, no layout file and no mask, `xitao_init_hw` succeeds and then no `xitao_push`
-- to queue 0 ends, whatever the number of rounds, since the default partitions of one thread have
-- no place.
pub xitao_init_hw-xitao_push :
    (atoi : List ℕ → ℤ) (stoi : List ℕ → Option ℤ) (env : Environment) (thrb nhwc : ℤ)
    (s : Scheduler)
    → s.resources_runtime_controlled ≡ false
    → env.xitao_layout_path ≡ none
    → (s.gotao_initialized ≡ true) ⊎ IsEmpty s.layout
    → IsSized s.layout
    → (s' : Scheduler) × (xitao_init_hw atoi stoi env (pos 1) thrb nhwc s ≡ ok s')
      × ((sta : Bool) (rounds draw : ℕ) (here : ℤ) (pt : ℕ) (queue : ℤ) (r : Runtime)
          → wanted_queue sta (r.affinity_queue pt) queue here ≡ pos 0
          → xitao_push sta rounds draw here s' pt queue r ≡ exit endless)
xitao_init_hw-xitao_push atoi stoi env thrb nhwc s free no_file fresh sized =
    let (s', runs, free', one, places) =
      xitao_init_hw-places atoi stoi env 1 thrb nhwc s free no_file (omega arith) fresh sized in
    (
      s',
      runs,
      λ sta rounds draw here pt queue r first.
          xitao_push_endless sta rounds draw here s' pt queue r 0 free' first (omega arith)
            (λ t below.
              no_places-In (s'.layout.inclusive_partitions t)
                (λ p there. no_IsWidth p.width ((places t p (omega arith)).0 there).0)),
    )
