-- ===== src/Server/Sessions/Sound.antt =====
-- What holds of the registry at every point of every history.
use toolhive_core.Base.{
  ℕ, suc, ◌≡◌, ◌≢◌, ◌⊎◌, ◌<◌, refl, sym, ap, ◌∙◌, inl, inr, arith, Bool-cases, Option-cases, eq_iff,
  Bool, true, false, List, none, some, String, str_eq, if◌then◌else◌, ◌==◌,
}
use toolhive_core.Base.Dict.{lookup, insert, lookup-insert, lookup-delete}
use toolhive_core.Server.Sdk.{Sdk}
use toolhive_core.Server.Objects.{
  Present, set_at, ClientSession, fresh_session, McpServer, set_session,
}
use toolhive_core.Server.Sessions.{
  new_client_session, load_or_store, session_for, closed, close_channel, unlist,
}

abbrev pub count_of : Bool → ℕ
count_of true = 1
count_of false = 0

module _ {sdk : Sdk} where
  -- A channel is closed and the hooks of a session are called once at most.
  abbrev pub IsOnce : ClientSession sdk → Type 0
  IsOnce c = (c.closes ≡ count_of c.notif_close) × (c.hooks_fired ≡ count_of c.registered)

  abbrev IsOpen : String → ClientSession sdk → Type 0
  IsOpen id c = (c.id ≡ id) × (c.notif_close ≡ false)

  abbrev pub IsListed : String → ℕ → McpServer sdk → Type 0
  IsListed id a s = (a < s.next) × ((s.heap a).id ≡ id) × ((s.heap a).notif_close ≡ false)

  pub record IsSound (s : McpServer sdk) : Type 0 where
    pub unnamed : lookup "" s.sessions ≡ none
    pub listed : (id : String) (a : ℕ) → lookup id s.sessions ≡ some a → IsListed id a s
    pub once : (a : ℕ) → IsOnce (s.heap a)

  pub set_at-cases :
      (P : ClientSession sdk → Type 0) (a b : ℕ) (c : ClientSession sdk)
      (heap : ℕ → ClientSession sdk)
      → (a ≡ b → P c)
      → P (heap b)
      → P (set_at a c heap b)
  set_at-cases P a b c heap new old = elim (Bool-cases (a == b)) [
    | inl e ↦ rw e (new (ground arith))
    | inr e ↦ rw e old
  ]

  pub set_at_same :
      (a : ℕ) (c : ClientSession sdk) (heap : ℕ → ClientSession sdk) → set_at a c heap a ≡ c
  set_at_same a c heap = ground arith

  pub set_session-IsSound :
      (a : ℕ) (c : ClientSession sdk) (s : McpServer sdk)
      → c.id ≡ (s.heap a).id
      → c.notif_close ≡ (s.heap a).notif_close
      → IsOnce c
      → IsSound s
      → IsSound (set_session sdk a c s)
  set_session-IsSound a c s same_id same_close o h = record {
    unnamed = h.unnamed;
    listed = λ id b e.
        let (lt, named, unclosed) = h.listed id b e in
        let (n, u) = set_at-cases (IsOpen id) a b c s.heap (λ p. (cc, cc)) (named, unclosed) in
        (lt, n, u);
    once = λ b. set_at-cases IsOnce a b c s.heap (λ p. o) (h.once b);
  }

  -- The local ids are no part of it: a session may be forgotten between its registration's steps.
  pub local_sessions-IsSound :
      (ids : List (String × Present)) (s : McpServer sdk)
      → IsSound s
      → IsSound (record s { local_sessions = ids })
  local_sessions-IsSound ids s h = record { unnamed = h.unnamed; listed = h.listed; once = h.once }

  -- The SDK's servers are no part of it.
  pub servers-IsSound :
      (servers : ℕ → sdk.Server) (s : McpServer sdk)
      → IsSound s
      → IsSound (record s { servers = servers })
  servers-IsSound servers s h = record { unnamed = h.unnamed; listed = h.listed; once = h.once }

  pub new_client_session-IsSound :
      (id : String) (s : McpServer sdk) → IsSound s → IsSound (new_client_session sdk id s).1
  unfolding new_client_session
  new_client_session-IsSound id s h = record {
    unnamed = h.unnamed;
    listed = λ key b e.
        let (lt, named, unclosed) = h.listed key b e in
        let (n, u) =
          set_at-cases (IsOpen key) s.next b (fresh_session sdk id) s.heap
            (λ p. absurd (omega (arith, lt, p))) (named, unclosed) in
        (omega (arith, lt), n, u);
    once = λ b.
        set_at-cases IsOnce s.next b (fresh_session sdk id) s.heap (λ p. (refl, refl)) (h.once b);
  }

  -- A new session is stored under its name.
  stored-IsSound :
      (id : String) (a : ℕ) (s : McpServer sdk)
      → str_eq id "" ≡ false
      → IsListed id a s
      → IsSound s
      → IsSound (record s { sessions = insert id a s.sessions })
  stored-IsSound id a s ne l h = record {
    unnamed = lookup-insert id "" a s.sessions ∙ rw ne h.unnamed;
    listed = λ key b e.
        of_test key b (Bool-cases (str_eq id key)) (sym (lookup-insert id key a s.sessions) ∙ e);
    once = h.once;
  }
    where
      of_test :
          (key : String) (b : ℕ)
          → (str_eq id key ≡ true) ⊎ (str_eq id key ≡ false)
          → (if str_eq id key then some a else lookup key s.sessions) ≡ some b
          → IsListed key b s
      of_test key b (inl e) f =
          let same : some a ≡ some b = rw e at f in
          let (lt, named, unclosed) = l in let k = (eq_iff id key).0 e in (ground arith, cc, cc)
      of_test key b (inr e) f = h.listed key b (rw e at f)

  pub load_or_store-IsSound :
      (id : String) (s : McpServer sdk)
      → str_eq id "" ≡ false
      → IsSound s
      → IsSound (load_or_store sdk id s).1
        × IsListed id (load_or_store sdk id s).0 (load_or_store sdk id s).1
        × (lookup id (load_or_store sdk id s).1.sessions ≡ some (load_or_store sdk id s).0)
  unfolding load_or_store new_client_session
  load_or_store-IsSound id s ne h = elim (Option-cases (lookup id s.sessions)) [
    | inl e ↦
        rw (load_or_store, e)
          (
            stored-IsSound id s.next s1 ne listed made,
            listed,
            lookup-insert id id s.next s.sessions ∙ found,
          )
    | inr (a, e) ↦ rw (load_or_store, e) (made, made.listed id a e, e)
  ]
    where
      s1 : McpServer sdk
      s1 = record s { heap = set_at s.next (fresh_session sdk id) s.heap; next = suc s.next }

      made : IsSound s1
      made = new_client_session-IsSound id s h

      found : (if str_eq id id then some s.next else lookup id s.sessions) ≡ some s.next
      found = rw ((eq_iff id id).1 refl) refl

      listed : IsListed id s.next s1
      listed =
          let at : set_at s.next (fresh_session sdk id) s.heap s.next ≡ fresh_session sdk id =
            set_at_same s.next (fresh_session sdk id) s.heap in
          (omega arith, ap (λ c. c.id) at, ap (λ c. c.notif_close) at)

  pub session_for-IsSound :
      (id : String) (s : McpServer sdk)
      → str_eq id "" ≡ false
      → IsSound s
      → IsSound (session_for sdk id s).1
        × IsListed id (session_for sdk id s).0 (session_for sdk id s).1
        × (lookup id (session_for sdk id s).1.sessions ≡ some (session_for sdk id s).0)
  unfolding session_for
  session_for-IsSound id s ne h = elim (Option-cases (lookup id s.sessions)) [
    | inl e ↦ rw (session_for, e) (load_or_store-IsSound id s ne h)
    | inr (a, e) ↦ rw (session_for, e) (h, h.listed id a e, e)
  ]

  -- A session that no name finds may be closed.
  pub close_channel-IsSound :
      (a : ℕ) (s : McpServer sdk)
      → ((id : String) → lookup id s.sessions ≢ some a)
      → IsSound s
      → IsSound (close_channel sdk a s)
  unfolding close_channel
  close_channel-IsSound a s hidden h = record {
    unnamed = h.unnamed;
    listed = λ key b e.
        let (lt, named, unclosed) = h.listed key b e in
        let (n, u) =
          set_at-cases (IsOpen key) a b (closed sdk (s.heap a)) s.heap
            (λ p. absurd (hidden key (e ∙ ap some (sym p)))) (named, unclosed) in
        (lt, n, u);
    once = λ b.
        set_at-cases IsOnce a b (closed sdk (s.heap a)) s.heap
          (λ p. closed_once (s.heap a) (h.once a)) (h.once b);
  }
    where
      closed_once : (c : ClientSession sdk) → IsOnce c → IsOnce (closed sdk c)
      closed_once c (n, f) = elim (Bool-cases c.notif_close) [
        | inl e ↦ rw e (rw e at n, f)
        | inr e ↦ rw e (ap suc (rw e at n), f)
      ]

  pub unlist-IsSound : (id : String) (s : McpServer sdk) → IsSound s → IsSound (unlist sdk id s)
  unfolding unlist
  unlist-IsSound id s h = record {
    unnamed = rw (lookup-delete id "" s.sessions) (ground (arith, h.unnamed));
    listed = λ key b e.
        of_test key b (Bool-cases (str_eq id key)) (sym (lookup-delete id key s.sessions) ∙ e);
    once = h.once;
  }
    where
      of_test :
          (key : String) (b : ℕ)
          → (str_eq id key ≡ true) ⊎ (str_eq id key ≡ false)
          → (if str_eq id key then none else lookup key s.sessions) ≡ some b
          → IsListed key b s
      of_test key b (inl e) f = absurd (ground (arith, e, f))
      of_test key b (inr e) f = h.listed key b (rw e at f)
