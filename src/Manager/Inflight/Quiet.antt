-- ===== src/Manager/Inflight/Quiet.antt =====
-- Steps that leave the statistics and the scheduler alone, and steps that may start a connection.
use bittorrent_application_l.Base.{
  ℕ, ◌<◌, ◌≡◌, refl, ap, ◌∙◌, Bool, true, false, ◌||◌, if◌then◌else◌, Option, none, some, arith,
}
use bittorrent_application_l.Manager.Scheduler.{or_else}
use bittorrent_application_l.Manager.State.{
  Manager, M, pure, ◌>>=◌, ◌>>◌, modify, lift, Env, assert, max_inbound_inflight,
}

-- What holds of the result, if the step has one.
abbrev pub Holds : {A : Type 0} → (A → Manager → Type 0) → Option (A × Manager) → Type 0
Holds P none = Unit
Holds P (some (a, m)) = P a m

abbrev pub Same : Manager → Manager → Type 0
Same m m' = (m'.statistics ≡ m.statistics) × (m'.scheduler ≡ m.scheduler)

-- The part of it that the scheduler's loop depends on.
abbrev pub Alike : Manager → Manager → Type 0
Alike m m' =
    (m'.statistics.inbound_inflight ≡ m.statistics.inbound_inflight) × (m'.scheduler ≡ m.scheduler)

Same-Alike : (m m' : Manager) → Same m m' → Alike m m'
Same-Alike m m' e = (ap (λ s. s.inbound_inflight) e.0, e.1)

abbrev pub Quiet : {A : Type 0} → M A → Type 0
Quiet s = (m : Manager) → Holds (λ a m'. Same m m') (s m)

-- A start adds to the count; a step that starts nothing leaves it.
abbrev pub Moves : Bool → ℕ → ℕ → Type 0
Moves true a b = a < b
Moves false a b = b ≡ a

abbrev pub Moved : Manager → Bool → Manager → Type 0
Moved m started m' =
    Moves started m.statistics.inbound_inflight m'.statistics.inbound_inflight
    × (m'.scheduler ≡ m.scheduler)

abbrev pub Starts : M Bool → Type 0
Starts s =
    (m : Manager) → m.statistics.inbound_inflight < max_inbound_inflight → Holds (Moved m) (s m)

pub Holds-bind :
    {A B : Type 0} {P : A → Manager → Type 0} (Q : B → Manager → Type 0) (o : Option (A × Manager))
    (f : A → M B)
    → Holds P o
    → ((a : A) (m : Manager) → P a m → Holds Q (f a m))
    → Holds Q (elim o [ none ↦ none | some (a, m) ↦ f a m ])
Holds-bind Q none f h k = tt
Holds-bind Q (some (a, m)) f h k = k a m h

pub Holds-map :
    {A : Type 0} {P : A → Manager → Type 0} (Q : A → Manager → Type 0) (o : Option (A × Manager))
    → Holds P o
    → ((a : A) (m : Manager) → P a m → Q a m)
    → Holds Q o
Holds-map Q none h k = tt
Holds-map Q (some (a, m)) h k = k a m h

pub Quiet-pure : {A : Type 0} (a : A) → Quiet (pure a)
Quiet-pure a m = (refl, refl)

pub Quiet-bind :
    {A B : Type 0} (s : M A) (f : A → M B) → Quiet s → ((a : A) → Quiet (f a)) → Quiet (s >>= f)
Quiet-bind s f h k m =
    Holds-bind _ (s m) f (h m)
      λ a m' e. Holds-map _ (f a m') (k a m') λ b m'' e'. (e'.0 ∙ e.0, e'.1 ∙ e.1)

pub Quiet-modify : (f : Manager → Manager) → ((m : Manager) → Same m (f m)) → Quiet (modify f)
Quiet-modify f h m = h m

pub Quiet-lift : {A : Type 0} (o : Option A) → Quiet (lift o)
Quiet-lift none m = tt
Quiet-lift (some a) m = (refl, refl)

pub Quiet-if : {A : Type 0} (b : Bool) (s t : M A) → Quiet s → Quiet t → Quiet (if b then s else t)
Quiet-if true s t h k = h
Quiet-if false s t h k = k

pub Quiet-assert : (env : Env) (b : Bool) → Quiet (assert env b)
Quiet-assert env b = Quiet-if (env.ndebug || b) (pure tt) (λ m. none) (Quiet-pure tt) (λ m. tt)

-- A step counted from another state that is the same for the count.
Moved-from :
    (m m' : Manager) (started : Bool) (n : Manager)
    → Alike m m'
    → Moved m' started n
    → Moved m started n
Moved-from m m' true n e v = (omega (arith, e.0, v.0), v.1 ∙ e.1)
Moved-from m m' false n e v = (v.0 ∙ e.0, v.1 ∙ e.1)

pub Starts-bind :
    {A : Type 0} (s : M A) (f : A → M Bool) → Quiet s → ((a : A) → Starts (f a)) → Starts (s >>= f)
Starts-bind s f h k m room = Holds-bind (Moved m) (s m) f (h m) λ a m' e.
    let alike = Same-Alike m m' e in
    Holds-map (Moved m) (f a m') (k a m' (omega (arith, alike.0)))
      λ started n v. Moved-from m m' started n alike v

pub Starts-modify :
    (f : Manager → Manager) (t : M Bool)
    → ((m : Manager) → Alike m (f m))
    → Starts t
    → Starts (modify f >> t)
Starts-modify f t h k m room =
    Holds-map (Moved m) (t (f m)) (k (f m) (omega (arith, (h m).0)))
      λ started n v. Moved-from m (f m) started n (h m) v

pub Starts-if : (b : Bool) (s t : M Bool) → Starts s → Starts t → Starts (if b then s else t)
Starts-if true s t h k = h
Starts-if false s t h k = k

pub Starts-nothing : Starts (pure false)
Starts-nothing m room = (refl, refl)

Starts-after :
    (t : M Bool) (m : Manager) (started : Bool) (m' : Manager)
    → m.statistics.inbound_inflight < max_inbound_inflight
    → Starts t
    → Moved m started m'
    → Holds (Moved m) ((if started then pure true else t) m')
Starts-after t m true m' room k v = v
Starts-after t m false m' room k v =
    Holds-map (Moved m) (t m') (k m' (omega (arith, v.0)))
      λ started n w. Moved-from m m' started n v w

-- A start ends the search; otherwise it goes on.
pub Starts-else : (s t : M Bool) → Starts s → Starts t → Starts (or_else s t)
Starts-else s t h k m room =
    Holds-bind (Moved m) (s m) (λ started. if started then pure true else t) (h m room)
      (λ started m' v. Starts-after t m started m' room k v)
