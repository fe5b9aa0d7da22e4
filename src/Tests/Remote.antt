-- ===== src/Tests/Remote.antt =====
-- A coordinator that loses requests, and the result at it.
use native.Mathlib.Decide.{ℕ_discrete}
use quarry.Base.{
  ℕ, zero, suc, List, [], any, Option, none, some, true, false, ◌≡◌, refl, ap, arith, pos, codes,
  if◌then◌else◌, split,
}
use quarry.Artifact.Path.{is_text, validate_path, check_segments}
use quarry.Artifact.Plain.{is_text_self}
use quarry.Artifact.Remote.{
  Method, get, put, head, delete, Request, Reply, Net, Config, got, Reader, put_object, get_object,
  retry, is_success,
}
use quarry.Artifact.Readback.{IsStore, Reads, get_object-put_object}

-- What is stored under each URL, and how many requests are lost from now on.
abbrev Bucket : Type 0
Bucket = (List ℕ → Option (List ℕ)) × ℕ

abbrev with_object :
    (List ℕ → Option (List ℕ)) → List ℕ → Option (List ℕ) → List ℕ → Option (List ℕ)
with_object m u o v = if is_text v u then o else m v

abbrev found_reply : Option (List ℕ) → Reply
found_reply none = record { status = 404; body = [] }
found_reply (some b) = record { status = 200; body = b }

abbrev serve : Method → Request → (List ℕ → Option (List ℕ)) → Option Reply × Bucket
serve get q m = (some (found_reply (m q.url)), (m, 0))
serve head q m = (some (found_reply (m q.url)), (m, 0))
serve put q m = (some (record { status = 204; body = [] }), (with_object m q.url (some q.body), 0))
serve delete q m = (some (record { status = 204; body = [] }), (with_object m q.url none, 0))

abbrev send_to : Request → Bucket → Option Reply × Bucket
send_to q (m, zero) = serve q.method q m
send_to q (m, suc n) = (none, (m, n))

abbrev lossy : Net Bucket
lossy = record { send = send_to; pause = λ d w. w; ended = λ w. false }

abbrev stored_in : Bucket → List ℕ → Option (List ℕ)
stored_in w u = w.0 u

abbrev settings : Config
settings = record { attempts = 3; backoff = 1; max_backoff = 2 }

abbrev plain : List ℕ → List ℕ
plain seg = seg

abbrev bucket : List ℕ
bucket = codes "http://store/v1/b"

abbrev key : List ℕ
key = codes "runs/r/out.txt"

lossy-IsStore : IsStore lossy settings plain bucket stored_in
lossy-IsStore = record {
  put_stores = stores;
  get_reads = reads;
  get_misses = misses;
  get_keeps = keeps;
  pause_keeps = λ d v w. refl;
}
  where
    stores :
        (u b : List ℕ) (w : Bucket) (r : Reply)
        → (send_to (record { method = put; url = u; body = b }) w).0 ≡ some r
        → is_success r.status ≡ true
        → stored_in (send_to (record { method = put; url = u; body = b }) w).1 u ≡ some b
    stores u b (m, zero) r e s = ap (λ x. if x then some b else m u) (is_text_self u)
    stores u b (m, suc n) r e s = absurd (ground (arith, e))

    reads :
        (u : List ℕ) (w : Bucket) (r : Reply)
        → (send_to (record { method = get; url = u; body = [] }) w).0 ≡ some r
        → is_success r.status ≡ true
        → stored_in w u ≡ some r.body
    reads u (m, zero) r e s = ground (arith, e, s)
    reads u (m, suc n) r e s = absurd (ground (arith, e))

    misses :
        (u : List ℕ) (w : Bucket) (r : Reply)
        → (send_to (record { method = get; url = u; body = [] }) w).0 ≡ some r
        → r.status ≡ 404
        → stored_in w u ≡ none
    misses u (m, zero) r e s = ground (arith, e, s)
    misses u (m, suc n) r e s = absurd (ground (arith, e))

    keeps :
        (u v : List ℕ) (w : Bucket)
        → stored_in (send_to (record { method = get; url = u; body = [] }) w).1 v ≡ stored_in w v
    keeps u v (m, zero) = refl
    keeps u v (m, suc n) = refl

-- Nothing is stored, and the next two requests are lost.
abbrev empty : Bucket
empty = ((λ u. none), 2)

abbrev hello : Reader
hello = record { bytes = codes "hello"; fails = false }

puts_hello :
    (put_object lossy settings plain bucket key hello (pos 5) empty).result
    ≡ got (record { status = 204; body = [] })
unfolding put_object retry validate_path check_segments split any ℕ_discrete
puts_hello = refl

get_object-put_object_example :
    Reads
      (codes "hello")
      (get_object lossy settings plain bucket key
        (put_object lossy settings plain bucket key hello (pos 5) empty).world).result
get_object-put_object_example =
    get_object-put_object lossy settings plain bucket stored_in lossy-IsStore key hello (pos 5)
      empty _ puts_hello
