-- ===== src/Artifact/Remote.antt =====
-- internal/artifact/remote/remote.go: the artifact store that a coordinator keeps behind HTTP.
use quarry.Base.{
  ℤ, pos, negsuc, ℕ, zero, suc, ◌*◌, ◌-◌, min, List, [], ◌∷◌, ◌++◌, map, length, take, split, join,
  Option, none, some, Bool, true, false, ◌&&◌, ◌==◌, ℕ-eq, leb, ltb, if◌then◌else◌,
}
use quarry.Artifact.Path.{validate_key}

pub data Method : Type 0 where
  get put head delete : Method

-- A body has its exact length as Content-Length.
pub record Request : Type 0 where
  pub method : Method
  pub url : List ℕ
  pub body : List ℕ

pub record Reply : Type 0 where
  pub status : ℕ
  pub body : List ℕ

-- The coordinator, the network and the context: a request gets a reply or none, a wait passes, and the
-- context may have ended.
pub record Net (W : Type 0) : Type 0 where
  pub send : Request → W → Option Reply × W
  pub pause : ℕ → W → W
  pub ended : W → Bool

-- The settings of the loop; a zero takes the default.
pub record Config : Type 0 where
  pub attempts : ℕ
  pub backoff : ℕ
  pub max_backoff : ℕ

abbrev pub or_else : ℕ → ℕ → ℕ
or_else n d = if n == 0 then d else n

abbrev pub with_defaults : Config → Config
with_defaults c = record {
  attempts = or_else c.attempts 5;
  backoff = or_else c.backoff 200000000;
  max_backoff = or_else c.max_backoff 5000000000;
}

-- The errors that differ for the caller; `refused` is an *Error below 500.
pub data Failure : Type 0 where
  refused : ℕ → Failure
  stopped gave_up invalid_key wrong_size broken : Failure

pub data Retried : Type 0 where
  got : Reply → Retried
  lost : Failure → Retried

abbrev pub is_success : ℕ → Bool
is_success code = leb 200 code && ltb code 300

-- What ends the loop after one reply: none tries again.
abbrev pub tried : Option Reply → Option Retried
tried none = none
tried (some r) =
    if is_success r.status
    then some (got r)
    else if ltb r.status 500
    then some (lost (refused r.status))
    else none

-- A reader: its bytes, and whether it fails after them.
pub record Reader : Type 0 where
  pub bytes : List ℕ
  pub fails : Bool

-- What is copied: one byte more than the size is enough to tell.
abbrev pub copied : ℤ → List ℕ → List ℕ
copied (pos n) bs = take (suc n) bs
copied (negsuc n) bs = bs

abbrev pub copy_fails : ℤ → Reader → Bool
copy_fails (pos n) r = r.fails && leb (length r.bytes) n
copy_fails (negsuc n) r = r.fails

abbrev pub is_size : ℤ → ℕ → Bool
is_size (pos n) m = n == m
is_size (negsuc n) m = true

pub record Passed (W A : Type 0) : Type 0 where
  pub result : A
  pub world : W

pub data Fetched : Type 0 where
  fetched : List ℕ → Fetched
  missing : Fetched
  unfetched : Failure → Fetched

abbrev pub is_key : List ℕ → Bool
is_key key = elim (validate_key key) [ none ↦ true | some e ↦ false ]

abbrev pub fetched_of : Retried → Fetched
fetched_of (got r) = fetched r.body
fetched_of (lost (refused code)) = if code == 404 then missing else unfetched (refused code)
fetched_of (lost e) = unfetched e

abbrev pub ensured : Retried → Bool
ensured (got r) = true
ensured (lost (refused code)) = code == 409
ensured (lost e) = false

module _ {W : Type 0} where
  abbrev pub or_again : Option Retried → W → Passed W Retried → Passed W Retried
  or_again (some x) w rest = record { result = x; world = w }
  or_again none w rest = rest

  abbrev pub loses : Failure → W → Passed W Retried
  loses e w = record { result = lost e; world = w }

  abbrev pub fetch : Passed W Retried → Passed W Fetched
  fetch p = record { result = fetched_of p.result; world = p.world }

-- Escaping one segment is url.PathEscape, a parameter; `bucket` is the URL of the bucket.
module _ {W : Type 0} (net : Net W) (config : Config) (escape : List ℕ → List ℕ)
    (bucket : List ℕ) where
  abbrev pub object_url : List ℕ → List ℕ
  object_url key = bucket ++ 47 ∷ join 47 (map escape (split 47 key))

  -- The loop, with the number of tries that are left after this one.
  unfoldable pub retry : ℕ → ℕ → Request → W → Passed W Retried
  retry zero delay q w =
      let p = net.send q w in
      or_again (tried p.0) p.1 (loses (if net.ended p.1 then stopped else gave_up) p.1)
  retry (suc n) delay q w =
      let p = net.send q w in
      let v = net.pause delay p.1 in
      let again = retry n (min (delay * 2) config.max_backoff) q v in
      or_again (tried p.0) p.1 (
        if net.ended p.1 then loses stopped p.1 else if net.ended v then loses stopped v else again)

  -- New has set the defaults, so there is at least one try.
  abbrev pub request : Method → List ℕ → List ℕ → W → Passed W Retried
  request m key body w =
      retry (config.attempts - 1) config.backoff
        (record { method = m; url = object_url key; body = body }) w

  abbrev pub put_copied : List ℕ → Reader → ℤ → W → Passed W Retried
  put_copied key r size w =
      let content = copied size r.bytes in
      if copy_fails size r
      then loses broken w
      else if is_size size (length content)
      then request put key content w
      else loses wrong_size w

  -- Put.
  unfoldable pub put_object : List ℕ → Reader → ℤ → W → Passed W Retried
  put_object key r size w = if is_key key then put_copied key r size w else loses invalid_key w

  -- Get.
  unfoldable pub get_object : List ℕ → W → Passed W Fetched
  get_object key w =
      if is_key key
      then fetch (request get key [] w)
      else record { result = unfetched invalid_key; world = w }

  abbrev pub then_delete : List ℕ → Passed W Retried → Passed W Fetched
  then_delete key p = elim p.result [
    | got r ↦ fetch (request delete key [] p.world)
    | lost e ↦ record { result = fetched_of (lost e); world = p.world }
  ]

  -- Delete: the HEAD is what tells a missing key.
  unfoldable pub delete_object : List ℕ → W → Passed W Fetched
  delete_object key w =
      if is_key key
      then then_delete key (request head key [] w)
      else record { result = unfetched invalid_key; world = w }

  -- New creates the bucket, or finds it there.
  unfoldable pub ensure_bucket : W → Passed W Bool
  ensure_bucket w =
      let p =
        retry (config.attempts - 1) config.backoff
          (record { method = put; url = bucket; body = [] }) w in
      record { result = ensured p.result; world = p.world }
