-- ===== src/Logship/Buffer.antt =====
-- internal/logship/logship.go: the shipper's state, and the functions that hold its lock.
use quarry.Base.{
  codes, ◌≤◌, ◌<◌, inl, inr, arith, Bool-cases, length-drop, ℕ, zero, suc, ◌+◌, ◌-◌, ◌*◌, max, min,
  String, List, [], ◌∷◌, ◌++◌, Option, none, some, Bool, true, false, ◌&&◌, ◌||◌, ◌==◌, ℕ-eq, ltb,
  leb, if◌then◌else◌, length, take, drop, decimal,
}

pub record Chunk : Type 0 where
  pub seq : ℕ
  pub bytes : List ℕ

-- Durations are nanoseconds; 0 (or less, in the source) takes the default.
pub record Config : Type 0 where
  pub flush_interval : ℕ
  pub flush_bytes : ℕ
  pub max_post_bytes : ℕ
  pub max_buffered : ℕ
  pub backoff : ℕ

abbrev millisecond : ℕ
millisecond = 1000000

abbrev pub max_backoff : ℕ
max_backoff = 10000 * millisecond

abbrev or_default : ℕ → ℕ → ℕ
or_default n d = if n == 0 then d else n

abbrev post_bytes : ℕ → ℕ → ℕ
post_bytes flush post = if ltb post flush then max (512 * 1024) flush else post

-- The configuration as New completes it.
unfoldable pub complete : Config → Config
complete cfg =
    let flush = or_default cfg.flush_bytes (64 * 1024) in
    record {
      flush_interval = or_default cfg.flush_interval (250 * millisecond);
      flush_bytes = flush;
      max_post_bytes = post_bytes flush cfg.max_post_bytes;
      max_buffered = or_default cfg.max_buffered (16 * 1024 * 1024);
      backoff = min (or_default cfg.backoff (200 * millisecond)) max_backoff;
    }

-- `failure` is the first error of a rejected batch. The two contexts and the channels are in the events
-- of the loop, where a wake may come at any time, so that the kick of a full chunk is one of them.
pub record Shipper : Type 0 where
  pub cur : List ℕ
  pub pending : List Chunk
  pub buffered : ℕ
  pub dropped : ℕ
  pub next_seq : ℕ
  pub closed : Bool
  pub stale : Bool
  pub failure : Option String

abbrev pub fresh : Shipper
fresh = record {
  cur = [];
  pending = [];
  buffered = 0;
  dropped = 0;
  next_seq = 1;
  closed = false;
  stale = false;
  failure = none;
}

unfoldable pub seal : ℕ → Shipper → Shipper
seal n s = record s {
  cur = drop n s.cur;
  pending = s.pending ++ record { seq = s.next_seq; bytes = take n s.cur } ∷ [];
  next_seq = suc s.next_seq;
}

-- The loop of append, on fuel.
unfoldable pub seal_full : ℕ → ℕ → Shipper → Shipper
unfolding seal
seal_full flush zero s = s
seal_full flush (suc fuel) s =
    let rest = seal_full flush fuel (seal flush s) in if leb flush (length s.cur) then rest else s

abbrev pub buffer : List ℕ → Shipper → Shipper
buffer p s = record s { cur = s.cur ++ p; buffered = s.buffered + length p }

-- Each round seals at least one byte, so there is fuel for one round per byte.
unfoldable pub append : Config → List ℕ → Shipper → Shipper
append cfg p s = seal_full cfg.flush_bytes (length (s.cur ++ p)) (buffer p s)

seal_full_cut :
    (flush fuel : ℕ) (s : Shipper)
    → 1 ≤ flush
    → length s.cur ≤ fuel
    → length (seal_full flush fuel s).cur < flush
unfolding seal_full seal
seal_full_cut flush zero s h k = omega (arith, h, k)
seal_full_cut flush (suc fuel) s h k = elim (Bool-cases (leb flush (length s.cur))) [
  | inl e ↦
      rw e
        (seal_full_cut flush fuel (seal flush s) h (omega (arith, h, k, length-drop flush s.cur)))
  | inr e ↦ rw e (ground (arith, e))
]

-- The loop of append ends: it leaves less than a whole chunk unsealed.
pub append_cut :
    (cfg : Config) (p : List ℕ) (s : Shipper)
    → 1 ≤ cfg.flush_bytes
    → length (append cfg p s).cur < cfg.flush_bytes
unfolding append
append_cut cfg p s h =
    seal_full_cut cfg.flush_bytes (length (s.cur ++ p)) (buffer p s) h (omega arith)

abbrev pub marker : ℕ → List ℕ
marker n = codes "[quarry] log shipper dropped " ++ decimal n ++ codes " bytes\n"

-- A negative room is 0 here; the code tests it for `> 0` and `<= 0` only.
abbrev pub room : Config → Shipper → ℕ
room cfg s = cfg.max_buffered - s.buffered

unfoldable pub announce : Config → Shipper → Shipper
announce cfg s =
    if ltb 0 s.dropped && ltb 0 (room cfg s)
    then (let t = append cfg (marker s.dropped) s in record t { dropped = 0 })
    else s

abbrev pub accept : Config → ℕ → List ℕ → Shipper → Shipper
accept cfg space p s =
    if space == 0
    then record s { dropped = s.dropped + length p }
    else if ltb space (length p)
    then append cfg (take space p) (record s { dropped = s.dropped + (length p - space) })
    else append cfg p s

-- The room is read before the marker is written. The count returned is always the length of p.
unfoldable pub write : Config → List ℕ → Shipper → Shipper
write cfg p s = if s.closed || s.stale then s else accept cfg (room cfg s) p (announce cfg s)

-- The number of chunks that a batch takes, with the size so far and whether it has a chunk.
unfoldable pub batch_from : ℕ → Bool → ℕ → List Chunk → List Chunk
batch_from limit first size [] = []
batch_from limit first size (c ∷ cs) =
    let rest = batch_from limit false (size + length c.bytes) cs in
    if first || leb (size + length c.bytes) limit then c ∷ rest else []

abbrev pub flushed : Shipper → Shipper
flushed s = if ltb 0 (length s.cur) then seal (length s.cur) s else s

unfoldable pub take_batch : Config → Shipper → List Chunk × Shipper
take_batch cfg s = let t = flushed s in (batch_from cfg.max_post_bytes true 0 t.pending, t)

abbrev pub size : List Chunk → ℕ
size [] = 0
size (c ∷ cs) = length c.bytes + size cs

-- An n beyond the end, where the source panics, is not passed: see the loop.
unfoldable pub ack : ℕ → Shipper → Shipper
ack n s = record s { buffered = s.buffered - size (take n s.pending); pending = drop n s.pending }

unfoldable pub mark_stale : Shipper → Shipper
mark_stale s = record s { stale = true; cur = []; pending = []; buffered = 0; dropped = 0 }

unfoldable pub set_err : String → Shipper → Shipper
set_err e s = record s { failure = elim s.failure [ none ↦ some e | some f ↦ some f ] }
