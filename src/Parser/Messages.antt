-- ===== src/Parser/Messages.antt =====
-- What parseMessage returns, and what it does to the relation cache, on any input.
use kafka_replication.Base.{
  ℕ, ◌≡◌, refl, sym, ◌∙◌, ◌≢◌, Bool, true, false, Option, none, some, [], ◌∷◌, arith, ◌==◌,
  if◌then◌else◌, ==_iff, Bytes, drop, Error, Outcome, ok, throw, fault, ◌>>=◌, >>=-eq-ok,
}
use kafka_replication.Wire.{byte_at}
use kafka_replication.Message.{
  ReplicationMessage, begin, relation, commit, insert, delete, update, truncate, get_type,
}
use kafka_replication.Message.Cache.{RelationCache, cache_relation}
use kafka_replication.Message.Parse.{
  Host, parse_begin, parse_relation, parse_commit, parse_insert, parse_delete, parse_update,
  parse_truncate,
}
use kafka_replication.Parser.{Parsed, parse_switch, catch_parse, parse_message}

-- The cache after a message: a relation message is stored, any other leaves it as it was.
abbrev pub cached : Option ReplicationMessage → RelationCache → RelationCache
cached (some (relation r)) cache = cache_relation r cache
cached _ cache = cache

-- A message of the switch has the type of its byte.
abbrev pub HasType : ℕ → Option ReplicationMessage → Type 0
HasType t none = Unit {0}
HasType t (some m) = get_type m ≡ t

abbrev Sound : ℕ → RelationCache → Outcome Parsed → Type 0
Sound t cache r =
    (m : Option ReplicationMessage) (cache' : RelationCache)
    → r ≡ ok (m, cache')
    → (cache' ≡ cached m cache) × HasType t m

if_Sound :
    (b : Bool) {t : ℕ} {cache : RelationCache} (x y : Outcome Parsed)
    → (b ≡ true → Sound t cache x)
    → Sound t cache y
    → Sound t cache (if b then x else y)
if_Sound true x y h k = h refl
if_Sound false x y h k = k

branch :
    {A : Type 0} (r : Outcome A) (f : A → ReplicationMessage) (g : A → RelationCache) (t c : ℕ)
    (cache : RelationCache)
    → ((a : A) → g a ≡ cached (some (f a)) cache)
    → ((a : A) → get_type (f a) ≡ c)
    → (t == c) ≡ true
    → Sound t cache (r >>= λ a. ok (some (f a), g a))
branch (ok a) f g t c cache stores types same none cache' e = cc
branch (ok a) f g t c cache stores types same (some m) cache' e =
    let one : m ≡ f a = ground arith in
    let store : cache' ≡ g a = ground arith in
    rw (one, store) (stores a, types a ∙ sym ((==_iff t c).0 same))
branch (throw x) f g t c cache stores types same m cache' e = cc
branch fault f g t c cache stores types same m cache' e = cc

null-Sound : (t : ℕ) (cache : RelationCache) → Sound t cache (ok (none, cache))
null-Sound t cache none cache' e = (ground (arith, e), tt)
null-Sound t cache (some m) cache' e = cc

parse_switch-Sound :
    (host : Host) (cache : RelationCache) (t : ℕ) (buf : Bytes)
    → Sound t cache (parse_switch host cache t buf)
unfolding parse_switch get_type
parse_switch-Sound host cache t buf =
    if_Sound (t == b'B') _ _
      (branch (parse_begin host buf) begin _ t _ cache (λ _. refl) (λ _. refl))
      (if_Sound (t == b'C') _ _
        (branch (parse_commit buf) commit _ t _ cache (λ _. refl) (λ _. refl))
        (if_Sound (t == b'R') _ _
          (branch (parse_relation buf) relation _ t _ cache (λ _. refl) (λ _. refl))
          (if_Sound (t == b'I') _ _
            (branch (parse_insert cache buf) insert _ t _ cache (λ _. refl) (λ _. refl))
            (if_Sound (t == b'U') _ _
              (branch (parse_update cache buf) update _ t _ cache (λ _. refl) (λ _. refl))
              (if_Sound (t == b'D') _ _
                (branch (parse_delete cache buf) delete _ t _ cache (λ _. refl) (λ _. refl))
                (if_Sound (t == b'T') _ _
                  (branch (parse_truncate host buf) truncate _ t _ cache (λ _. refl) (λ _. refl))
                  (null-Sound t cache)))))))

catch_parse_lem :
    (t : ℕ) (cache : RelationCache) (r : Outcome Parsed)
    → Sound t cache r
    → Sound t cache (catch_parse cache r)
unfolding catch_parse
catch_parse_lem t cache (ok p) h m cache' e = h m cache' e
catch_parse_lem t cache (throw x) h m cache' e = null-Sound t cache m cache' e
catch_parse_lem t cache fault h m cache' e = cc

-- Whatever bytes come in, the message that parseMessage returns has the type of its first byte, and
-- the cache changes only by storing that message, if it is a relation message.
pub parse_message-cached :
    (host : Host) (cache cache' : RelationCache) (raw : Bytes) (m : Option ReplicationMessage)
    → parse_message host cache raw ≡ ok (m, cache')
    → (t : ℕ) × (byte_at raw 0 ≡ ok t) × (cache' ≡ cached m cache) × HasType t m
unfolding parse_message
parse_message-cached host cache cache' raw m e =
    let (t, e₀, e₁) = >>=-eq-ok (byte_at raw 0) _ e in
    let (store, type) =
      catch_parse_lem t cache _ (parse_switch-Sound host cache t (drop 1 raw)) m cache' e₁ in
    (t, e₀, store, type)

catch_parse-ne-throw :
    (cache : RelationCache) (r : Outcome Parsed) (x : Error) → catch_parse cache r ≢ throw x
unfolding catch_parse
catch_parse-ne-throw cache (ok p) x e = cc
catch_parse-ne-throw cache (throw y) x e = cc
catch_parse-ne-throw cache fault x e = cc

pub parse_message-ne-throw :
    (host : Host) (cache : RelationCache) (raw : Bytes) (x : Error)
    → parse_message host cache raw ≢ throw x
unfolding parse_message byte_at
parse_message-ne-throw host cache [] x e = cc
parse_message-ne-throw host cache (t ∷ buf) x e =
    catch_parse-ne-throw cache (parse_switch host cache t buf) x e

-- No exception leaves parseMessage: one that a parse method throws gives the null pointer, and
-- leaves the cache as it was.
pub parse_message_exceptions :
    (host : Host) (cache : RelationCache) (t : ℕ) (buf : Bytes) (x : Error)
    → (parse_message host cache (t ∷ buf) ≢ throw x)
      × (parse_switch host cache t buf ≡ throw x
          → parse_message host cache (t ∷ buf) ≡ ok (none, cache))
unfolding parse_message byte_at catch_parse
parse_message_exceptions host cache t buf x =
    (parse_message-ne-throw host cache (t ∷ buf) x, λ e. rw (e, catch_parse))
