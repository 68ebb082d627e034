-- ===== src/Server/Broker.antt =====
-- cmd/server: what holds between the server's maps and its running loops.
use rmm.Base.{ℕ, ◌≡◌, ap, sym, ◌∙◌, ◌≢◌, ◌⊎◌, [], Bytes, false, Option, none, some, arith, inl, inr}
use rmm.Base.Int.{lt_ℕ}
use rmm.Base.Map.{
  Map, get, put, delete, get-put_same, get-put_other, get-put_cases, get-delete_other,
  get-delete_found, bytes_eq, nat_eq,
}
use rmm.Server.State.{LiveAgent}

-- The pointer `conn` is to an agent of this ID, which has a display.
pub record IsAgent (live : Map ℕ LiveAgent) (conn : ℕ) (id : Bytes) : Type 0 where
  pub agent : LiveAgent
  pub is_live : get conn live ≡ some agent
  pub same_id : agent.id ≡ id
  pub has_display : lt_ℕ agent.display_count 1 ≡ false

-- An agent of the registry is served by a loop of its own ID, a viewer of an agent by a loop for that
-- agent, and every loop holds a live agent of its ID.
pub record IsBroker (agents : Map Bytes ℕ) (viewers : Map Bytes ℕ) (live : Map ℕ LiveAgent)
    (agent_loops : Map ℕ Bytes) (viewer_loops : Map ℕ (Bytes × ℕ)) : Type 0 where
  pub registered :
      (id : Bytes) (conn : ℕ) → get id agents ≡ some conn → get conn agent_loops ≡ some id
  pub served : (conn : ℕ) (id : Bytes) → get conn agent_loops ≡ some id → IsAgent live conn id
  pub watched :
      (id : Bytes) (viewer : ℕ)
      → get id viewers ≡ some viewer
      → (agent : ℕ) × (get viewer viewer_loops ≡ some (id, agent))
  pub watching :
      (viewer : ℕ) (id : Bytes) (agent : ℕ)
      → get viewer viewer_loops ≡ some (id, agent)
      → IsAgent live agent id

pub empty-IsBroker : IsBroker [] [] [] [] []
unfolding get
empty-IsBroker = record {
  registered = λ id conn e. absurd (cc);
  served = λ conn id e. absurd (cc);
  watched = λ id viewer e. absurd (cc);
  watching = λ viewer id agent e. absurd (cc);
}

some-injective : {V : Type 0} {x y : V} → some x ≡ some y → x ≡ y
some-injective e = cc

nat_cases : (m n : ℕ) → (m ≡ n) ⊎ (m ≢ n)
nat_cases m n = ground arith

-- Keys whose entries differ are different.
apart_of_none :
    {V : Type 0} (k j : ℕ) (x : V) (m : Map ℕ V) → get k m ≡ none → get j m ≡ some x → k ≢ j
apart_of_none k j x m e f here = clash e (ap (λ i. get i m) here ∙ f)
  where
    clash : {A : Type 0} {o : Option A} {y : A} → o ≡ none → o ≡ some y → ⊥
    clash e f = cc

apart_of_values :
    {V : Type 0} (k j : ℕ) (x y : V) (m : Map ℕ V)
    → get k m ≡ some x
    → get j m ≡ some y
    → x ≢ y
    → k ≢ j
apart_of_values k j x y m e f other here =
    other (some-injective (sym e ∙ (ap (λ i. get i m) here ∙ f)))

IsAgent-put :
    (live : Map ℕ LiveAgent) (conn c : ℕ) (id : Bytes) (a : LiveAgent)
    → get conn live ≡ none
    → IsAgent live c id
    → IsAgent (put conn a live) c id
IsAgent-put live conn c id a fresh p = record {
  agent = p.agent;
  is_live =
      get-put_other conn c a live (apart_of_none conn c p.agent live fresh p.is_live) ∙ p.is_live;
  same_id = p.same_id;
  has_display = p.has_display;
}

module _ {agents : Map Bytes ℕ} {viewers : Map Bytes ℕ} {live : Map ℕ LiveAgent}
    {agent_loops : Map ℕ Bytes} {viewer_loops : Map ℕ (Bytes × ℕ)}
    (w : IsBroker agents viewers live agent_loops viewer_loops) where
  pub register-IsBroker :
      (conn : ℕ) (a : LiveAgent)
      → get conn live ≡ none
      → lt_ℕ a.display_count 1 ≡ false
      → IsBroker
          (put a.id conn agents)
          viewers
          (put conn a live)
          (put conn a.id agent_loops)
          viewer_loops
  register-IsBroker conn a fresh display = record {
    registered = λ id c e. elim (get-put_cases a.id id conn c agents e) [
      | inl (this, same) ↦ rw (sym same, this) (get-put_same conn id agent_loops)
      | inr (_, old) ↦
          let loop = w.registered id c old in
          get-put_other conn c a.id agent_loops
            (let p = w.served c id loop in apart_of_none conn c p.agent live fresh p.is_live)
          ∙ loop
    ];
    served = λ c id e. elim (get-put_cases conn c a.id id agent_loops e) [
      | inl (here, same) ↦ record {
        agent = a;
        is_live = rw here (get-put_same c a live);
        same_id = same;
        has_display = display;
      }
      | inr (_, old) ↦ IsAgent-put live conn c id a fresh (w.served c id old)
    ];
    watched = w.watched;
    watching =
        λ viewer id agent e. IsAgent-put live conn agent id a fresh (w.watching viewer id agent e);
  }

  -- An agent that changes neither its ID nor its displays.
  pub update-IsBroker :
      (conn : ℕ) (a b : LiveAgent)
      → get conn live ≡ some a
      → b.id ≡ a.id
      → b.display_count ≡ a.display_count
      → IsBroker agents viewers (put conn b live) agent_loops viewer_loops
  update-IsBroker conn a b found id displays = record {
    registered = w.registered;
    served = λ c i e. still c i (w.served c i e);
    watched = w.watched;
    watching = λ viewer i agent e. still agent i (w.watching viewer i agent e);
  }
    where
      still : (c : ℕ) (i : Bytes) → IsAgent live c i → IsAgent (put conn b live) c i
      still c i p = elim (nat_cases conn c) [
        | inl here ↦
            let same : a ≡ p.agent = cc in
            record {
              agent = b;
              is_live = rw here (get-put_same c b live);
              same_id = id ∙ (ap (λ (x : LiveAgent). x.id) same ∙ p.same_id);
              has_display =
                  ap (λ n. lt_ℕ n 1) (displays ∙ ap (λ (x : LiveAgent). x.display_count) same)
                  ∙ p.has_display;
            }
        | inr other ↦ record {
          agent = p.agent;
          is_live = get-put_other conn c b live other ∙ p.is_live;
          same_id = p.same_id;
          has_display = p.has_display;
        }
      ]

  pub disconnect-IsBroker :
      (conn : ℕ) (id : Bytes)
      → get conn agent_loops ≡ some id
      → IsBroker (delete id agents) viewers live (delete conn agent_loops) viewer_loops
  disconnect-IsBroker conn id loop = record {
    registered = λ i c e.
        let (other, old) = get-delete_found id i c agents e in
        let still = w.registered i c old in
        get-delete_other conn c agent_loops
          (apart_of_values conn c id i agent_loops loop still other)
        ∙ still;
    served = λ c i e. w.served c i (get-delete_found conn c i agent_loops e).1;
    watched = w.watched;
    watching = w.watching;
  }

  pub connect_viewer-IsBroker :
      (viewer : ℕ) (id : Bytes) (agent : ℕ)
      → get viewer viewer_loops ≡ none
      → IsAgent live agent id
      → IsBroker agents
          (put id viewer viewers)
          live
          agent_loops
          (put viewer (id, agent) viewer_loops)
  connect_viewer-IsBroker viewer id agent fresh here = record {
    registered = w.registered;
    served = w.served;
    watched = λ i v e. elim (get-put_cases id i viewer v viewers e) [
      | inl (this, same) ↦
          (agent, rw (sym same, sym this) (get-put_same viewer (id, agent) viewer_loops))
      | inr (_, old) ↦
          let (a, loop) = w.watched i v old in
          (
            a,
            get-put_other viewer v (id, agent) viewer_loops
                  (apart_of_none viewer v (i, a) viewer_loops fresh loop)
                ∙ loop,
          )
    ];
    watching = λ v i a e. elim (get-put_cases viewer v (id, agent) (i, a) viewer_loops e) [
      | inl (_, same) ↦ rw (sym (ap (λ p. p.0) same), sym (ap (λ p. p.1) same)) here
      | inr (_, old) ↦ w.watching v i a old
    ];
  }

  pub disconnect_viewer-IsBroker :
      (viewer : ℕ) (id : Bytes) (agent : ℕ)
      → get viewer viewer_loops ≡ some (id, agent)
      → IsBroker agents (delete id viewers) live agent_loops (delete viewer viewer_loops)
  disconnect_viewer-IsBroker viewer id agent loop = record {
    registered = w.registered;
    served = w.served;
    watched = λ i v e.
        let (other, old) = get-delete_found id i v viewers e in
        let (a, still) = w.watched i v old in
        (
          a,
          get-delete_other viewer v viewer_loops (
                apart_of_values viewer v (id, agent) (i, a) viewer_loops loop still
                  (λ same. other (ap (λ p. p.0) same)))
              ∙ still,
        );
    watching = λ v i a e. w.watching v i a (get-delete_found viewer v (i, a) viewer_loops e).1;
  }
