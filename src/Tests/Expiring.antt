-- ===== src/Tests/Expiring.antt =====
-- The theorem on executions at a server on which entries expire.
use serverless_flux.Base.{
  ℕ, ◌+◌, ◌-◌, ◌<◌, String, ◌<>◌, ◌≡◌, refl, sym, ap, ◌∙◌, subst, inl, inr, Bool, true, false, ◌||◌,
  Bool-cases, Option, none, some, List, [], ◌∷◌, ◌==◌, eq_refl, if◌then◌else◌, eqb, ltb, keep,
  mem-keep, keep-mem, map, arith,
}
use mathlib.Core.List.{Memᴰ}
use text.Mathlib.TextEquality.{starts_with_iff}
use text.Mathlib.TextPositions.{starts_with-append}
use serverless_flux.Base.Dict
use serverless_flux.Base.Dict.{get-put}
use serverless_flux.Base.Result.{ok, ok-injective}
use serverless_flux.Api.Reply.{is_some}
use serverless_flux.Memory.Redis.{Redis, redis_memory}
use serverless_flux.Memory.Redis.Keys.{prefix}
use serverless_flux.Memory.Redis.Laws.{RedisLaws}
use serverless_flux.Memory.Redis.Expiry.{
  ExpiryLaws, StoreEvent, agent_saved, agent_deleted, execution_saved, passed, happen, happen_all,
  get-save_execution,
}
use serverless_flux.Tests.Server.{
  Server, Cell, names, matches, remove_all, mem-names, matches-prefix, get-remove_all_mem,
  get-remove_all_any, get-remove_all_other, codec, codec_laws,
}
use serverless_flux.Tests.Fleet.{idle}

-- What is held, when each entry ends (0 for never), and the time.
pub record Timed : Type 0 where
  pub held : Server
  pub deadline : String → ℕ
  pub now : ℕ

abbrev pub alive : ℕ → ℕ → Bool
alive deadline now = eqb deadline 0 || ltb now deadline

abbrev pub entry : Timed → String → Option Cell
entry w k = if alive (w.deadline k) w.now then Dict.get k w.held else none

abbrev pub left : Timed → String → ℕ
left w k = w.deadline k - w.now

abbrev pub pass : ℕ → Timed → Timed
pass t w = record w { now = w.now + t }

abbrev pub timed_server : Redis Cell Timed
timed_server = record {
  keys = λ pattern w. ok (keep (λ k. is_some (entry w k)) (keep (matches pattern) (names w.held)));
  get = λ k w. ok (entry w k);
  mget = λ ks w. ok (map (entry w) ks);
  set = λ k v ttl w. (
    ok tt,
    record w {
      held = Dict.put k v w.held;
      deadline = λ j. if k == j then (if eqb ttl 0 then 0 else w.now + ttl) else w.deadline j;
    },
  );
  del = λ ks w. (ok tt, record w { held = remove_all ks w.held });
}

some-held : (w : Timed) (k : String) (v : Cell) → entry w k ≡ some v → Dict.get k w.held ≡ some v
some-held w k v h = elim (Bool-cases (alive (w.deadline k) w.now)) [
  | inl e ↦ rw e at h
  | inr e ↦ cc (rw e at h)
]

if-none : (b : Bool) → ◌≡◌ {A = Option Cell} (if b then none else none) none
if-none true = refl
if-none false = refl

set-entry :
    (k : String) (v : Cell) (ttl : ℕ) (w : Timed) → entry (timed_server.set k v ttl w).1 k ≡ some v
set-entry k v ttl w = rw (eq_refl k) (rw (get-put k k v w.held) (rw (eq_refl k) (ground arith)))

pub timed_laws : RedisLaws timed_server entry
timed_laws = record {
  get_ok = λ k w o h. sym (ok-injective h);
  mget_ok = λ ks w vs h. sym (ok-injective h);
  keys_ok = λ n w ks k h m.
      let in_keep = subst (Memᴰ k) (sym (ok-injective h)) m in
      let (there, _) = mem-keep (λ j. is_some (entry w j)) k _ in_keep in
      let (i, e) = (starts_with_iff k (prefix n)).0 (
        sym (matches-prefix n k)
        ∙ (mem-keep (matches (prefix n <> "*")) k (names w.held) there).1) in
      (i, sym e);
  keys_all = λ n w ks i v h e. subst (Memᴰ (prefix n <> i)) (ok-injective h) (
      keep-mem (λ j. is_some (entry w j)) (prefix n <> i) _
        (keep-mem (matches (prefix n <> "*")) (prefix n <> i) (names w.held)
          (mem-names w.held (prefix n <> i) v (some-held w (prefix n <> i) v e))
          (matches-prefix n (prefix n <> i) ∙ starts_with-append (prefix n) i))
        (ap is_some e));
  set_ok = λ k v ttl w h. set-entry k v ttl w;
  set_any = λ k v ttl w. inl (set-entry k v ttl w);
  set_other = λ k v ttl w j h. rw h (rw (get-put k j v w.held) (rw h));
  del_ok =
      λ ks w k h m. rw (get-remove_all_mem ks w.held k m) (if-none (alive (w.deadline k) w.now));
  del_any = λ ks w k. elim (get-remove_all_any ks w.held k) [
    | inl gone ↦ inl (rw gone (if-none (alive (w.deadline k) w.now)))
    | inr old ↦ inr (rw old)
  ];
  del_other = λ ks w k h. rw (get-remove_all_other ks w.held k h);
}

pub timed_expiry : ExpiryLaws timed_server entry left pass
timed_expiry = record {
  set_left = λ k v ttl w h e. rw (eq_refl k) (ground arith);
  set_left_other = λ k v ttl w j h. rw h;
  del_left_other = λ ks w k h. refl;
  pass_entry = λ t w k h. alive-later t w k h;
  pass_left = λ t w k h. omega arith;
}
  where
    alive-later : (t : ℕ) (w : Timed) (k : String) → t < left w k → entry (pass t w) k ≡ entry w k
    alive-later t w k h = ground arith

abbrev pub start : Timed
start = record { held = []; deadline = λ k. 0; now = 5 }

-- An hour and a half, in which an agent comes and goes and another execution starts.
abbrev pub meanwhile : List (StoreEvent ℕ)
meanwhile =
    agent_saved idle
    ∷ passed 2700000000000
    ∷ execution_saved "exc-2" "a2"
    ∷ agent_deleted "a1"
    ∷ passed 2700000000000
    ∷ []

get-save_execution_example : ◌≡◌ {A = String} "a1" "a1"
unfolding happen_all happen redis_memory remove_all codec Dict.put Dict.get Dict.remove
get-save_execution_example =
    get-save_execution timed_server codec entry left pass timed_laws timed_expiry codec_laws "exc-1"
      "a1" meanwhile start "a1" refl (tt, (tt, (refl, (tt, (tt, tt))))) (omega arith) refl
