-- ===== src/Go/Effect.antt =====
-- A method may change its object, and whatever it calls may change the outside world `W`, of which
-- nothing is known: that two runs end in one world says that they made the same calls.

pub record Session (C W : Type 0) : Type 0 where
  pub object : C
  pub world : W

abbrev pub M : Type 0 → Type 0 → Type 0 → Type 0
M C W A = Session C W → A × Session C W

module _ {C W : Type 0} where
  abbrev pub pure : {A : Type 0} → A → M C W A
  pure a s = (a, s)

  infixl 5 ◌>>=◌ ◌>>◌
  abbrev pub ◌>>=◌ : {A B : Type 0} → M C W A → (A → M C W B) → M C W B
  ◌>>=◌ m f s = let (a, s') = m s in f a s'

  abbrev pub ◌>>◌ : {A B : Type 0} → M C W A → M C W B → M C W B
  m >> k = m >>= λ _. k

  abbrev pub get_object : M C W C
  get_object s = (s.object, s)

  abbrev pub modify : (C → C) → M C W (Unit {0})
  modify f s = (tt, record s { object = f s.object })

  -- A call to the outside that leaves the object alone.
  abbrev pub call : {A : Type 0} → (W → A × W) → M C W A
  call f s = let (a, w) = f s.world in (a, record s { world = w })
