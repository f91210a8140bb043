-- ===== src/Service/Node/Guards.antt =====
-- The sessions that are open at a node.
use oprf_service.Base.{ℕ, List, [], ◌∷◌, ◌++◌, ◌≡◌, refl, true, false, arith, ok}
use mathlib.Core.Logic.{ite}
use oprf_service.Service.Node.{is_open, remove_session, insert_new_session}

module _ {Uuid : Type 0} (d : Discrete Uuid) where
  remove_closed :
      (session : Uuid) (sessions : List Uuid)
      → is_open d session sessions ≡ false
      → remove_session d session sessions ≡ sessions
  unfolding is_open remove_session
  remove_closed session [] h = refl
  remove_closed session (other ∷ sessions) h = ground (arith, remove_closed session sessions)

  pub remove_inserted :
      (session : Uuid) (sessions : List Uuid)
      → is_open d session sessions ≡ false
      → remove_session d session (session ∷ sessions) ≡ sessions
  unfolding remove_session
  remove_inserted session sessions h = ground (arith, remove_closed session sessions h)

  is_open-remove_session :
      (x session : Uuid) (sessions : List Uuid)
      → is_open d x (remove_session d session sessions)
        ≡ ite (d session x) false (is_open d x sessions)
  unfolding is_open remove_session
  is_open-remove_session x session [] = ground arith
  is_open-remove_session x session (other ∷ sessions) =
      ground (arith, is_open-remove_session x session sessions)

  -- No session twice.
  unfoldable pub Unique : List Uuid → Type 0
  Unique [] = Unit
  Unique (session ∷ sessions) = (is_open d session sessions ≡ false) × Unique sessions

  is_open-middle :
      (x session : Uuid) (before after : List Uuid)
      → is_open d x (before ++ session ∷ after)
        ≡ ite (d session x) true (is_open d x (before ++ after))
  unfolding is_open
  is_open-middle x session [] after = ground arith
  is_open-middle x session (other ∷ before) after =
      ground (arith, is_open-middle x session before after)

  Unique-middle :
      (session : Uuid) (before after : List Uuid)
      → Unique (before ++ session ∷ after)
      → (is_open d session (before ++ after) ≡ false) × Unique (before ++ after)
  unfolding is_open Unique
  Unique-middle session [] after h = h
  Unique-middle session (other ∷ before) after h =
      let rest = Unique-middle session before after h.1 in
      let middle = is_open-middle other session before after in
      (ground (arith, h.0, rest.0, middle), (ground (arith, h.0, middle), rest.1))

-- The set of open sessions, and the guards that connections hold.
pub record Guarded : Type 0 where
  pub open_sessions : List (List ℕ)
  pub guards : List (List ℕ)

module _ (d : Discrete (List ℕ)) where
  -- A connection gets a guard, or one drops its guard.
  pub data Step : Guarded → Guarded → Type 0 where
    reserve :
        {node : Guarded} (session : List ℕ) {reserved : List (List ℕ)}
        → insert_new_session d session node.open_sessions ≡ ok reserved
        → Step node (record { open_sessions = reserved; guards = session ∷ node.guards })
    drop :
        {open_sessions : List (List ℕ)} (session : List ℕ) (before after : List (List ℕ))
        → Step
            (record { open_sessions = open_sessions; guards = before ++ session ∷ after })
            (record {
              open_sessions = remove_session d session open_sessions;
              guards = before ++ after;
            })

  pub data Steps : Guarded → Guarded → Type 0 where
    done : {node : Guarded} → Steps node node
    then_step : {a b c : Guarded} → Steps a b → Step b c → Steps a c

  -- The set is that of the guards, and no session has two of them.
  abbrev pub IsGuarded : Guarded → Type 0
  IsGuarded node =
      ((x : List ℕ) → is_open d x node.open_sessions ≡ is_open d x node.guards)
      × Unique d node.guards

  reserve_IsGuarded :
      (node : Guarded) (session : List ℕ) (reserved : List (List ℕ))
      → insert_new_session d session node.open_sessions ≡ ok reserved
      → IsGuarded node
      → IsGuarded (record { open_sessions = reserved; guards = session ∷ node.guards })
  unfolding insert_new_session is_open Unique
  reserve_IsGuarded node session reserved e (h, u) =
      let agree = h session in
      (λ x. let q = h x in ground (arith, e, q), (ground (arith, e, agree), u))

  drop_IsGuarded :
      (open_sessions : List (List ℕ)) (session : List ℕ) (before after : List (List ℕ))
      → IsGuarded (record { open_sessions = open_sessions; guards = before ++ session ∷ after })
      → IsGuarded (record {
        open_sessions = remove_session d session open_sessions;
        guards = before ++ after;
      })
  drop_IsGuarded open_sessions session before after (h, u) =
      let rest = Unique-middle d session before after u in
      (
        λ x.
            let q = h x in
            let middle = is_open-middle d x session before after in
            let removed = is_open-remove_session d x session open_sessions in
            ground (arith, q, middle, removed, rest.0),
        rest.1,
      )

  Step-IsGuarded : {a b : Guarded} → Step a b → IsGuarded a → IsGuarded b
  Step-IsGuarded (reserve {node} session {reserved} e) h =
      reserve_IsGuarded node session reserved e h
  Step-IsGuarded (drop {open_sessions} session before after) h =
      drop_IsGuarded open_sessions session before after h

  -- From a node without sessions, whatever connections come and go: the open sessions are those with
  -- a guard, and no session has two guards at a time.
  pub Steps-IsGuarded :
      (a b : Guarded) → a.open_sessions ≡ [] → a.guards ≡ [] → Steps a b → IsGuarded b
  unfolding is_open Unique
  Steps-IsGuarded a b p q done = rw (p, q) (λ x. refl, tt)
  Steps-IsGuarded a b p q (then_step steps step) =
      Step-IsGuarded step (Steps-IsGuarded a _ p q steps)
