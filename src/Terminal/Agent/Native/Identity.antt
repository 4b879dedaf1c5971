-- ===== src/Terminal/Agent/Native/Identity.antt =====
-- The identity under which a shell may start.
use dashboard_rpi.Common.{
  ℕ, ◌≤◌, ◌≡◌, refl, true, false, Option, none, some, List, [], ◌∷◌, ◌==◌, codes, text_eq_iff,
  is_empty, length, length-append, All, arith, Bool-cases, Option-cases, inl, inr,
}
use dashboard_rpi.Common.Json.{Number, pos, negsuc, fraction}
use dashboard_rpi.Terminal.Agent.Native.{
  UserInfo, Runtime, positive, is_number, member, add, collect, only_member, has_only_primary_group,
  is_identity, checked, validate_runtime, is_username,
}

collect-grows :
    (gs : List Number) (set set' : List ℕ) → collect set gs ≡ some set' → length set ≤ length set'
unfolding collect add
collect-grows [] set set' e = ground arith
collect-grows (pos n ∷ gs) set set' e =
    let h = collect-grows gs (add n set) set' e in ground (arith, length-append set (n ∷ []))
collect-grows (negsuc n ∷ gs) set set' e = absurd (ground arith)
collect-grows (fraction ∷ gs) set set' e = absurd (ground arith)

collect-same :
    (gid : ℕ) (gs : List Number) (set : List ℕ)
    → collect (gid ∷ []) gs ≡ some set
    → length set ≡ 1
    → All (λ g. g ≡ pos gid) gs × (set ≡ gid ∷ [])
unfolding collect add member
collect-same gid [] set e l = ground arith
collect-same gid (pos n ∷ gs) set e l = elim (Bool-cases (gid == n)) [
  | inl same ↦ let h = collect-same gid gs set (ground arith) l in ((ground arith, h.0), h.1)
  | inr other ↦ let two = collect-grows gs (gid ∷ n ∷ []) set (ground arith) in absurd (omega arith)
]
collect-same gid (negsuc n ∷ gs) set e l = absurd (ground arith)
collect-same gid (fraction ∷ gs) set e l = absurd (ground arith)

All-moved :
    (n gid : ℕ) (gs : List Number) → n ≡ gid → All (λ g. g ≡ pos n) gs → All (λ g. g ≡ pos gid) gs
All-moved n gid [] e h = tt
All-moved n gid (g ∷ gs) e h = (ground arith, All-moved n gid gs e h.1)

only_primary :
    (gs : List Number) (gid : ℕ)
    → has_only_primary_group gs gid ≡ true
    → (is_empty gs ≡ false) × All (λ g. g ≡ pos gid) gs
unfolding has_only_primary_group only_member collect add member
only_primary [] gid e = absurd (ground arith)
only_primary (pos n ∷ gs) gid e = elim (Option-cases (collect (n ∷ []) gs)) [
  | inl refused ↦ absurd (ground arith)
  | inr (set, kept) ↦
      let h = collect-same n gs set kept (ground arith) in
      let same : n ≡ gid = ground arith in (refl, (ground arith, All-moved n gid gs same h.0))
]
only_primary (negsuc n ∷ gs) gid e = absurd (ground arith)
only_primary (fraction ∷ gs) gid e = absurd (ground arith)

-- What is known of a runtime that was let through.
pub record Safe (r : Runtime) : Type 0 where
  pub uid : ℕ
  pub gid : ℕ
  pub groups : List Number
  pub on_linux : r.platform ≡ codes "linux"
  pub runs_as : (r.effective_uid ≡ some (pos uid)) × (1 ≤ uid)
  pub runs_in : (r.effective_gid ≡ some (pos gid)) × (1 ≤ gid)
  pub holds : (r.groups ≡ some groups) × (is_empty groups ≡ false) × All (λ g. g ≡ pos gid) groups
  pub known_as : (r.user_info.uid ≡ pos uid) × (r.user_info.gid ≡ pos gid)
  pub named : is_username r.user_info.username ≡ true
  pub housed : r.is_absolute r.user_info.homedir ≡ true

positive-some : (o : Option Number) (n : ℕ) → positive o ≡ some n → (o ≡ some (pos n)) × (1 ≤ n)
unfolding positive
positive-some o n e = ground arith

is_number_pos : (n : ℕ) (x : Number) → is_number n x ≡ true → x ≡ pos n
unfolding is_number
is_number_pos n x e = ground arith

checked-Safe :
    (r : Runtime) (u : UserInfo) (uid gid : Option ℕ) (groups : Option (List Number))
    → positive r.effective_uid ≡ uid
    → positive r.effective_gid ≡ gid
    → r.groups ≡ groups
    → r.platform ≡ codes "linux"
    → checked r uid gid groups ≡ some u
    → Safe r × (u ≡ r.user_info)
unfolding checked is_identity
checked-Safe r u (some uid) (some gid) (some groups) a b c l e =
    let member_of = only_primary groups gid (ground arith) in
    (
      record {
        uid = uid;
        gid = gid;
        groups = groups;
        on_linux = l;
        runs_as = positive-some r.effective_uid uid a;
        runs_in = positive-some r.effective_gid gid b;
        holds = (c, member_of.0, member_of.1);
        known_as = (
          is_number_pos uid r.user_info.uid (ground arith),
          is_number_pos gid r.user_info.gid (ground arith),
        );
        named = ground arith;
        housed = ground arith;
      },
      ground arith,
    )
checked-Safe r u none gid groups a b c l e = absurd (ground arith)
checked-Safe r u (some uid) none groups a b c l e = absurd (ground arith)
checked-Safe r u (some uid) (some gid) none a b c l e = absurd (ground arith)

-- If the runtime is let through, then it is Linux, the process runs as a user and a group other
-- than root's, holds at least one group and none but its own, and the account is the process's own,
-- with a name of the permitted characters and an absolute home; the answer is that account.
pub validate_runtime-Safe :
    (r : Runtime) (u : UserInfo) → validate_runtime r ≡ some u → Safe r × (u ≡ r.user_info)
unfolding validate_runtime
validate_runtime-Safe r u e =
    checked-Safe r u (positive r.effective_uid) (positive r.effective_gid) r.groups refl refl refl
      (ground (arith, text_eq_iff r.platform (codes "linux"))) (ground arith)
