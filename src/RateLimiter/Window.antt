-- ===== src/RateLimiter/Window.antt =====
-- core/rate_limiter.py, against a limiter that forgets no request.
use resolver_ai.Prelude.{
  ℕ, ◌≤◌, ◌≡◌, refl, ap, sym, ◌∙◌, inl, inr, Bool, true, false, List, [], ◌∷◌, length, leb, any,
  ◌==◌, if◌then◌else◌, arith, Bool-cases,
}
use resolver_ai.RateLimiter.{
  Limit, Buckets, is_recent, recent, limit_in_memory, limit_in_redis, is_rate_limited, zadd,
}

-- where and when a request is counted
pub record Request : Type 0 where
  pub in_redis : Bool
  pub now : ℕ

-- the answers to a sequence of requests
pub serve : Limit → List Request → Buckets → List Bool
serve l [] b = []
serve l (r ∷ rs) b =
    let (b', limited) = is_rate_limited l r.in_redis r.now b in limited ∷ serve l rs b'

abbrev pub store_of : Bool → Buckets → List ℕ
store_of true h = h.redis
store_of false h = h.memory

abbrev pub note : Request → Buckets → Buckets
note r h =
    if r.in_redis
    then record h { redis = zadd r.now h.redis }
    else record h { memory = r.now ∷ h.memory }

-- The limit is exceeded when the window that ends now has as many earlier requests as are allowed, of
-- all that the same store was ever told.
abbrev pub exceeded : Limit → Request → Buckets → Bool
exceeded l r h = leb l.max_requests (length (recent l.window r.now (store_of r.in_redis h)))

pub serve_forgetting_nothing : Limit → List Request → Buckets → List Bool
serve_forgetting_nothing l [] h = []
serve_forgetting_nothing l (r ∷ rs) h =
    if l.enabled
    then exceeded l r h ∷ serve_forgetting_nothing l rs (note r h)
    else false ∷ serve_forgetting_nothing l rs h

-- the times do not step back
unfoldable pub Ascending : ℕ → List Request → Type 0
Ascending last [] = Unit
Ascending last (r ∷ rs) = (last ≤ r.now) × Ascending r.now rs

-- from `last` on, a bucket and the history have the same recent requests
unfoldable pub Agrees : ℕ → ℕ → List ℕ → List ℕ → Type 0
Agrees window last ts hs = (n : ℕ) → last ≤ n → recent window n ts ≡ recent window n hs

recent-recent :
    (window now n : ℕ) (ts : List ℕ)
    → now ≤ n
    → recent window n (recent window now ts) ≡ recent window n ts
unfolding recent
recent-recent window now n [] h = refl
recent-recent window now n (t ∷ ts) h = ground (arith, recent-recent window now n ts h)

Agrees-later :
    (window last now : ℕ) (ts hs : List ℕ)
    → last ≤ now
    → Agrees window last ts hs
    → Agrees window now ts hs
unfolding Agrees
Agrees-later window last now ts hs h a n later = a n (omega arith)

Agrees-note :
    (window last now : ℕ) (ts hs : List ℕ)
    → last ≤ now
    → Agrees window last ts hs
    → Agrees window now (now ∷ recent window now ts) (now ∷ hs)
unfolding Agrees recent
Agrees-note window last now ts hs h a n later =
    let same = recent-recent window now n ts later ∙ a n (omega arith) in
    ap (λ rest. if is_recent window n now then now ∷ rest else rest) same

-- a time in the window stays in it
any-recent :
    (window now : ℕ) (ts : List ℕ)
    → is_recent window now now ≡ true
    → any (λ t. t == now) (recent window now ts) ≡ any (λ t. t == now) ts
unfolding recent
any-recent window now [] h = refl
any-recent window now (t ∷ ts) h = ground (arith, any-recent window now ts h)

-- a time outside the window is not seen
zadd-unseen :
    (window now n : ℕ) (ts : List ℕ)
    → is_recent window n now ≡ false
    → recent window n (zadd now ts) ≡ recent window n ts
unfolding recent
zadd-unseen window now n ts h = elim (Bool-cases (any (λ t. t == now) ts)) [
  | inl e ↦ rw e refl
  | inr e ↦ rw (e, h) refl
]

zadd-Agrees :
    (window now n : ℕ) (ks hs : List ℕ)
    → any (λ t. t == now) ks ≡ any (λ t. t == now) hs
    → recent window n ks ≡ recent window n hs
    → recent window n (zadd now ks) ≡ recent window n (zadd now hs)
unfolding recent
zadd-Agrees window now n ks hs members same = elim (Bool-cases (any (λ t. t == now) hs)) [
  | inl e ↦ rw (members, e) same
  | inr e ↦ rw (members, e) (ap (λ rest. if is_recent window n now then now ∷ rest else rest) same)
]

Agrees-zadd :
    (window last now : ℕ) (ts hs : List ℕ)
    → last ≤ now
    → Agrees window last ts hs
    → Agrees window now (zadd now (recent window now ts)) (zadd now hs)
unfolding Agrees
Agrees-zadd window last now ts hs h a n later =
    let same = recent-recent window now n ts later ∙ a n (omega arith) in
    elim (Bool-cases (is_recent window now now)) [
      | inl seen ↦
          zadd-Agrees window now n (recent window now ts) hs
            (ap (λ ks. any (λ t. t == now) ks) (a now h) ∙ any-recent window now hs seen) same
      | inr unseen ↦
          let gone : is_recent window n now ≡ false = ground arith in
          zadd-unseen window now n (recent window now ts) gone
          ∙ same
          ∙ sym (zadd-unseen window now n hs gone)
    ]

pub record Tracks (window last : ℕ) (b h : Buckets) : Type 0 where
  pub memory : Agrees window last b.memory h.memory
  pub redis : Agrees window last b.redis h.redis

-- one request, counted in the store that serves it
request-Tracks :
    (l : Limit) (last now : ℕ) (in_redis : Bool) (b h : Buckets)
    → l.enabled ≡ true
    → last ≤ now
    → Tracks l.window last b h
    → let r : Request = record { in_redis = in_redis; now = now } in
      ((is_rate_limited l in_redis now b).1 ≡ exceeded l r h)
      × Tracks l.window now (is_rate_limited l in_redis now b).0 (note r h)
unfolding is_rate_limited limit_in_memory limit_in_redis Agrees
request-Tracks l last now true b h on later t = rw on (
  ap (λ kept. leb l.max_requests (length kept)) (t.redis now later),
  record {
    memory = Agrees-later l.window last now b.memory h.memory later t.memory;
    redis = Agrees-zadd l.window last now b.redis h.redis later t.redis;
  },
)
request-Tracks l last now false b h on later t = rw on (
  rw (sym (t.memory now later)) (ground arith),
  record {
    memory = Agrees-note l.window last now b.memory h.memory later t.memory;
    redis = Agrees-later l.window last now b.redis h.redis later t.redis;
  },
)

Tracks-later :
    (window last now : ℕ) (b h : Buckets)
    → last ≤ now
    → Tracks window last b h
    → Tracks window now b h
Tracks-later window last now b h later t = record {
  memory = Agrees-later window last now b.memory h.memory later t.memory;
  redis = Agrees-later window last now b.redis h.redis later t.redis;
}

switched_off :
    (l : Limit) (in_redis : Bool) (now : ℕ) (b : Buckets)
    → l.enabled ≡ false
    → is_rate_limited l in_redis now b ≡ (b, false)
unfolding is_rate_limited
switched_off l in_redis now b off = rw off refl

noted :
    (l : Limit) (r : Request) (rs : List Request) (h : Buckets)
    → l.enabled ≡ true
    → serve_forgetting_nothing l (r ∷ rs) h
      ≡ exceeded l r h ∷ serve_forgetting_nothing l rs (note r h)
unfolding serve_forgetting_nothing
noted l r rs h on =
    ap
      (λ enabled.
        if enabled
        then exceeded l r h ∷ serve_forgetting_nothing l rs (note r h)
        else false ∷ serve_forgetting_nothing l rs h)
      on

-- Every answer of the limiter, which forgets the requests that have left the window, is the answer of
-- the limiter that forgets nothing, for requests in the order of their times, whichever store serves
-- each of them, if both start with the same recent requests in each store.
pub serve_refines :
    (l : Limit) (last : ℕ) (rs : List Request) (b h : Buckets)
    → Ascending last rs
    → Tracks l.window last b h
    → serve l rs b ≡ serve_forgetting_nothing l rs h
unfolding serve serve_forgetting_nothing Ascending
serve_refines l last [] b h up t = refl
serve_refines l last (r ∷ rs) b h (later, up) t = elim (Bool-cases l.enabled) [
  | inl on ↦
      let (answer, kept) = request-Tracks l last r.now r.in_redis b h on later t in
      rw answer (
        ap (λ answers. exceeded l r h ∷ answers) (serve_refines l r.now rs _ (note r h) up kept)
        ∙ sym (noted l r rs h on))
  | inr off ↦
      rw (switched_off l r.in_redis r.now b off, off)
        (ap (λ answers. false ∷ answers)
          (serve_refines l r.now rs b h up (Tracks-later l.window last r.now b h later t)))
]
