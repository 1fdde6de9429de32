-- ===== src/Poller/Names.antt =====
-- src/poller_poll.c: the key of a value.
use optics.Base.{◌≡◌, ap, ◌∙◌, arith, take, Text, ok, length-replicate, ℕ, get_or-replicate_lt}
use optics.Key.Text.{IsValid, join, join_nil, push-text}
use optics.Poller.Values.{blank, build_key}

pub blank-IsValid : IsValid blank
blank-IsValid = record {
  size = length-replicate {A = ℕ} 256 0;
  fits = omega arith;
  ended = get_or-replicate_lt {A = ℕ} 256 0 0 1 (omega arith);
}

-- The key of a value never aborts: it is the prefix, the host and the name, with a dot between a
-- text that is not empty and what follows, cut to 255 bytes after each of them.
pub build_key-text :
    (prefix host name : Text)
    → build_key prefix host name
      ≡ ok (take 255 (join (take 255 (join (take 255 prefix) host)) name))
unfolding build_key
build_key-text prefix host name =
    let (k1, run1, v1, t) = push-text prefix blank-IsValid in
    let t1 = t ∙ ap (λ x. take 255 x) (join_nil prefix) in
    let (k2, run2, v2, t2) = push-text host v1 in
    let (k3, run3, v3, t3) = push-text name v2 in
    rw (run1, run2, run3)
      (ap (λ t. ok t)
        (t3 ∙ ap (λ t. take 255 (join t name)) (t2 ∙ ap (λ t. take 255 (join t host)) t1)))
