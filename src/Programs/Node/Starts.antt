-- ===== src/Programs/Node/Starts.antt =====
-- hyperswarm-bootstrap/src/main.rs: the configuration with which the node starts.
use hyperswarm_rs.Prelude.{
  ◌≡◌, ◌⊎◌, inl, inr, refl, ap, ap₂, sym, ◌∙◌, true, false, some, List, [], ◌∷◌, ◌++◌, map,
  append-nil, append_assoc, String, IoError, IoResult, ok, err, if◌then◌else◌,
}
use hyperswarm_rs.Prelude.Io.{IoResult-cases}
use hyperswarm_rs.Net.{SocketAddr}
use hyperswarm_rs.Config.{DhtSettings}
use hyperswarm_rs.Bootstrap.{DhtNode}
use hyperswarm_rs.Bootstrap
use hyperswarm_rs.Programs.Node.{
  Target, text, at, is_ipv4, push_ipv4, push_all, config_with, async_main,
}

-- The addresses of version 4 of all, in order.
abbrev pub all_ipv4 : List SocketAddr → List SocketAddr
all_ipv4 [] = []
all_ipv4 (addr ∷ addrs) = if is_ipv4 addr then addr ∷ all_ipv4 addrs else all_ipv4 addrs

abbrev pub ipv4_of : List (List SocketAddr) → List SocketAddr
ipv4_of [] = []
ipv4_of (found ∷ founds) = all_ipv4 found ++ ipv4_of founds

push_ipv4-append : (addrs found : List SocketAddr) → push_ipv4 addrs found ≡ addrs ++ all_ipv4 found
unfolding push_ipv4
push_ipv4-append addrs [] = sym (append-nil addrs)
push_ipv4-append addrs (addr ∷ found) =
    elim (is_ipv4 addr)
      as (λ b.
        (if b then push_ipv4 (addrs ++ addr ∷ []) found else push_ipv4 addrs found)
        ≡ addrs ++ (if b then addr ∷ all_ipv4 found else all_ipv4 found)) [
          | true ↦
              push_ipv4-append (addrs ++ addr ∷ []) found
              ∙ append_assoc addrs (addr ∷ []) (all_ipv4 found)
          | false ↦ push_ipv4-append addrs found
        ]

module _ (resolve : String → IoResult (List SocketAddr)) where
  -- Each text resolves, to `founds`.
  abbrev pub Resolves : List String → List (List SocketAddr) → Type 0
  Resolves names founds = map resolve names ≡ map ok founds

  -- The first text that does not resolve, with its error.
  pub record Unresolved (names : List String) (e : IoError) : Type 0 where
    pub before : List String
    pub founds : List (List SocketAddr)
    pub name : String
    pub after : List String
    pub splits : names ≡ before ++ name ∷ after
    pub resolves : Resolves before founds
    pub fails : resolve name ≡ err e

  Pushed : List SocketAddr → List String → Type 0
  Pushed addrs names =
      ((founds : List (List SocketAddr)) × Resolves names founds
        × (push_all resolve addrs names ≡ ok (addrs ++ ipv4_of founds)))
      ⊎ ((e : IoError) × Unresolved names e × (push_all resolve addrs names ≡ err e))

  module _ (addrs : List SocketAddr) (name : String) (names : List String) where
    Pushed-more :
        (found : List SocketAddr)
        → resolve name ≡ ok found
        → Pushed (push_ipv4 addrs found) names
        → Pushed addrs (name ∷ names)
    unfolding Pushed push_all
    Pushed-more found r (inl (founds, all, pushed)) = inl (
      found ∷ founds,
      ap₂ (λ x xs. x ∷ xs) r all,
      rw r (
          pushed
          ∙ ap (λ xs. ok (xs ++ ipv4_of founds)) (push_ipv4-append addrs found)
          ∙ ap ok (append_assoc addrs (all_ipv4 found) (ipv4_of founds))),
    )
    Pushed-more found r (inr (e, first, pushed)) = inr (
      e,
      record {
        before = name ∷ first.before;
        founds = found ∷ first.founds;
        name = first.name;
        after = first.after;
        splits = ap (λ xs. name ∷ xs) first.splits;
        resolves = ap₂ (λ x xs. x ∷ xs) r first.resolves;
        fails = first.fails;
      },
      rw r pushed,
    )

    unresolved : {e : IoError} → resolve name ≡ err e → Pushed addrs (name ∷ names)
    unfolding Pushed push_all
    unresolved {e} r = inr (
      e,
      record {
        before = [];
        founds = [];
        name = name;
        after = names;
        splits = refl;
        resolves = refl;
        fails = r;
      },
      rw r refl,
    )

  push_all-Pushed : (addrs : List SocketAddr) (names : List String) → Pushed addrs names
  unfolding Pushed push_all
  push_all-Pushed addrs [] = inl ([], refl, ap ok (sym (append-nil addrs)))
  push_all-Pushed addrs (name ∷ names) = elim (IoResult-cases (resolve name)) [
    | inl (found, r) ↦
        Pushed-more addrs name names found r (push_all-Pushed (push_ipv4 addrs found) names)
    | inr (e, r) ↦ unresolved addrs name names r
  ]

module _ {C B D : Type 0} (dht : DhtSettings C Target) (node : DhtNode C B D) where
  -- The configuration with the texts, which the addresses replace if there are any texts.
  abbrev pub configured : List String → List SocketAddr → C
  configured [] addrs = dht.set_ephemeral (dht.set_bootstrap_nodes dht.default []) false
  configured (name ∷ names) addrs =
      dht.set_bootstrap_nodes
        (dht.set_ephemeral (dht.set_bootstrap_nodes dht.default (map text (name ∷ names))) false)
        (map at addrs)

  -- Either each of the texts given as bootstrap addresses resolves, and the program runs a node on
  -- the address given, with the default configuration, not ephemeral, and with no bootstrap nodes if
  -- there are no texts, and else with those of the addresses that are of version 4, in order; or it
  -- fails with the error of the first text that does not resolve.
  pub async_main-starts :
      (address : SocketAddr) (names : List String)
      → ((founds : List (List SocketAddr)) × Resolves node.resolve names founds
          × (async_main dht node address names
              ≡ Bootstrap.run dht node
                  (Bootstrap.new (configured names (ipv4_of founds)) (some address))))
        ⊎ ((e : IoError) × Unresolved node.resolve names e
            × (async_main dht node address names ≡ err e))
  unfolding async_main config_with Pushed
  async_main-starts address [] = inl ([], refl, refl)
  async_main-starts address (name ∷ names) = elim (push_all-Pushed node.resolve [] (name ∷ names)) [
    | inl (founds, resolves, pushed) ↦ inl (founds, resolves, rw pushed refl)
    | inr (e, first, pushed) ↦ inr (e, first, rw pushed refl)
  ]
