-- ===== src/Os/Orderly.antt =====
-- Histories in order: every input is opened before the rules are in force, and no flow starts
-- before that.
use ssh_sign.Prelude.{Bool, true, false, [], ◌∷◌, any, Result, ok, err, map_err, ◌≡◌, refl}
use ssh_sign.Text.Bytes.{Bytes}
use ssh_sign.Os.{
  Event, opened, inspected, listed, connected, restricted, restrict_failed, asked, worked, History,
  Os, enforced, Action, pure, lift, continue, ◌>>=◌, open_path, stat_path, list_dir, dial_socket,
  enforce_rules, work, ask,
}

abbrev pub is_attempt : Event → Bool
is_attempt restricted = true
is_attempt restrict_failed = true
is_attempt (opened path) = false
is_attempt (inspected path) = false
is_attempt (listed path) = false
is_attempt (connected path) = false
is_attempt asked = false
is_attempt worked = false

abbrev pub is_success : Event → Bool
is_success restricted = true
is_success restrict_failed = false
is_success (opened path) = false
is_success (inspected path) = false
is_success (listed path) = false
is_success (connected path) = false
is_success asked = false
is_success worked = false

-- The rules were put in force, or an attempt at it has failed; and they were put in force.
abbrev pub is_attempted : History → Bool
is_attempted = any is_attempt

abbrev pub is_in_force : History → Bool
is_in_force = any is_success

-- Paths and sockets come before the rules, flows and the agent only where they are in force.
abbrev pub IsAllowed : Event → History → Type 0
IsAllowed (opened path) h = is_attempted h ≡ false
IsAllowed (inspected path) h = is_attempted h ≡ false
IsAllowed (listed path) h = is_attempted h ≡ false
IsAllowed (connected path) h = is_attempted h ≡ false
IsAllowed restricted h = is_attempted h ≡ false
IsAllowed restrict_failed h = is_attempted h ≡ false
IsAllowed asked h = is_in_force h ≡ true
IsAllowed worked h = is_in_force h ≡ true

abbrev pub IsOrderly : History → Type 0
IsOrderly [] = Unit
IsOrderly (e ∷ h) = IsAllowed e h × IsOrderly h

-- Before the rules, and with the rules in force.
abbrev pub IsPrepared : History → Type 0
IsPrepared h = (is_attempted h ≡ false) × IsOrderly h

abbrev pub IsConfined : History → Type 0
IsConfined h = (is_in_force h ≡ true) × IsOrderly h

-- A step that leads from histories with `P` to histories with `P`, whether it fails or not.
pub record Keeps {E A : Type 0} (P : History → Type 0) (m : Action E A) : Type 0 where
  pub at : (h : History) → P h → P (m h).1

abbrev pub Prepares : {E A : Type 0} → Action E A → Type 0
Prepares m = Keeps IsPrepared m

abbrev pub Confines : {E A : Type 0} → Action E A → Type 0
Confines m = Keeps IsConfined m

-- A step that ends with the rules in force unless it fails.
abbrev pub IsSecured : {E A : Type 0} → Result E A → History → Type 0
IsSecured (ok a) h = IsConfined h
IsSecured (err e) h = IsOrderly h

pub record Secures {E A : Type 0} (m : Action E A) : Type 0 where
  pub at : (h : History) → IsPrepared h → IsSecured (m h).0 (m h).1

-- The whole of a command.
pub record Ends {E A : Type 0} (m : Action E A) : Type 0 where
  pub at : (h : History) → IsPrepared h → IsOrderly (m h).1

module _ {E A : Type 0} {P : History → Type 0} where
  pub Keeps-lift : (r : Result E A) → Keeps P (lift r)
  Keeps-lift r = record { at = λ h p. p }

module _ {E A : Type 0} where
  pub Confines-work : (a : A) → Confines (work {E = E} a)
  unfolding work
  Confines-work a = record { at = λ h p. (p.0, p) }

  pub Confines-ask : (a : A) → Confines (ask {E = E} a)
  unfolding ask
  Confines-ask a = record { at = λ h p. (p.0, p) }

  pub Ends-Prepares : (m : Action E A) → Prepares m → Ends m
  Ends-Prepares m k = record { at = λ h p. (k.at h p).1 }

module _ {E A B : Type 0} where
  Keeps-continue :
      {P : History → Type 0} (r : Result E A) (next : A → Action E B)
      → ((a : A) → Keeps P (next a))
      → Keeps P (continue r next)
  Keeps-continue (ok a) next k = k a
  Keeps-continue (err e) next k = record { at = λ h p. p }

  pub Keeps-bind :
      {P : History → Type 0} (m : Action E A) (next : A → Action E B)
      → Keeps P m
      → ((a : A) → Keeps P (next a))
      → Keeps P (m >>= next)
  Keeps-bind m next km k = record {
    at = λ h p. let (r, h') = m h in (Keeps-continue r next k).at h' (km.at h p);
  }

  Secures-continue :
      (r : Result E A) (next : A → Action E B)
      → ((a : A) → Secures (next a))
      → Secures (continue r next)
  Secures-continue (ok a) next k = k a
  Secures-continue (err e) next k = record { at = λ h p. p.1 }

  pub Secures-bind :
      (m : Action E A) (next : A → Action E B)
      → Prepares m
      → ((a : A) → Secures (next a))
      → Secures (m >>= next)
  Secures-bind m next km k = record {
    at = λ h p. let (r, h') = m h in (Secures-continue r next k).at h' (km.at h p);
  }

  secured-pure :
      (r : Result E A) (f : A → B) (h : History)
      → IsSecured r h
      → IsSecured
          (continue r (λ a. pure {E = E} (f a)) h).0
          (continue r (λ a. pure {E = E} (f a)) h).1
  secured-pure (ok a) f h s = s
  secured-pure (err e) f h s = s

  pub Secures-pure : (m : Action E A) (f : A → B) → Secures m → Secures (m >>= λ a. pure (f a))
  Secures-pure m f k = record { at = λ h p. let (r, h') = m h in secured-pure r f h' (k.at h p) }

  secured-next :
      (r : Result E A) (next : A → Action E B) (h : History)
      → ((a : A) → Confines (next a))
      → IsSecured r h
      → IsOrderly (continue r next h).1
  secured-next (ok a) next h k s = ((k a).at h s).1
  secured-next (err e) next h k s = s

  -- With the rules in force the flow may start.
  pub Ends-bind :
      (m : Action E A) (next : A → Action E B)
      → Secures m
      → ((a : A) → Confines (next a))
      → Ends (m >>= next)
  Ends-bind m next km k = record {
    at = λ h p. let (r, h') = m h in secured-next r next h' k (km.at h p);
  }

module _ (os : Os) {E : Type 0} where
  pub Prepares-open_path : (path : Bytes) → Prepares (open_path os {E = E} path)
  unfolding open_path
  Prepares-open_path path = record { at = λ h p. (p.0, p) }

  pub Prepares-stat_path : (path : Bytes) → Prepares (stat_path os {E = E} path)
  unfolding stat_path
  Prepares-stat_path path = record { at = λ h p. (p.0, p) }

  pub Prepares-list_dir : (path : Bytes) → Prepares (list_dir os {E = E} path)
  unfolding list_dir
  Prepares-list_dir path = record { at = λ h p. (p.0, p) }

  pub Prepares-dial_socket : (path : Bytes) → Prepares (dial_socket os {E = E} path)
  unfolding dial_socket
  Prepares-dial_socket path = record { at = λ h p. (p.0, p) }

  enforced-Secures :
      (f : Bytes → E) (answer : Result Bytes (Unit {0})) (h : History)
      → IsPrepared h
      → IsSecured (map_err f answer) (enforced answer ∷ h)
  enforced-Secures f (ok u) h p = (refl, p)
  enforced-Secures f (err e) h p = p

  pub Secures-enforce_rules :
      (f : Bytes → E) → Secures (enforce_rules os >>= λ answer. lift (map_err f answer))
  unfolding enforce_rules
  Secures-enforce_rules f = record { at = λ h p. enforced-Secures f (os.enforce h) h p }

pub ruleset prepares = (
  Keeps-lift, Keeps-bind, Prepares-open_path, Prepares-stat_path, Prepares-list_dir,
  Prepares-dial_socket,
)
