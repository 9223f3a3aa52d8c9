-- ===== src/Push/Burst/Buckets.antt =====
-- The two loops of `should_send` (burst.py), bucket by bucket.
use news_project.Prelude.{
  ℕ, ◌≡◌, refl, Bool, ◌&&◌, ◌||◌, fun_ext, List, [], ◌∷◌, ◌++◌, arith, ltb, if◌then◌else◌, length,
  all, any, elem, Text, text_eq, text_beq, text_beq_iff,
}
use news_project.Common.Ordered.{Distinct}
use news_project.Prelude.Dict.{Dict, insert, lookup-insert}
use news_project.Push.Burst.{bucket, expire, check, record_all}

bucket-insert :
    (k t : Text) (buf : List ℕ) (b : Dict Text (List ℕ))
    → bucket t (insert k buf b) ≡ (if text_beq k t then buf else bucket t b)
unfolding bucket
bucket-insert k t buf b = ground (arith, lookup-insert k t buf b)

expire-expire : (w now : ℕ) (buf : List ℕ) → expire w now (expire w now buf) ≡ expire w now buf
unfolding expire
expire-expire w now [] = refl
expire-expire w now (x ∷ buf) = ground (arith, expire-expire w now buf)

elem-cons : (t x : Text) (ts : List Text) → elem t (x ∷ ts) ≡ (text_beq t x || elem t ts)
unfolding elem any
elem-cons t x ts = refl

module _ (window threshold now : ℕ) where
  -- There is room for one more attempt on `t`.
  unfoldable pub has_room : Dict Text (List ℕ) → Text → Bool
  has_room b t = ltb (length (expire window now (bucket t b))) threshold

  expired : Text → Dict Text (List ℕ) → Dict Text (List ℕ)
  expired x b = insert x (expire window now (bucket x b)) b

  bucket-expired :
      (x t : Text) (b : Dict Text (List ℕ))
      → bucket t (expired x b)
        ≡ (if text_beq x t then expire window now (bucket t b) else bucket t b)
  unfolding expired
  bucket-expired x t b =
      ground (arith, bucket-insert x t (expire window now (bucket x b)) b, text_beq_iff x t)

  has_room-expired :
      (x : Text) (b : Dict Text (List ℕ)) (t : Text) → has_room (expired x b) t ≡ has_room b t
  unfolding has_room
  has_room-expired x b t =
      ground (arith, bucket-expired x t b, expire-expire window now (bucket t b))

  check-cons :
      (x : Text) (ts : List Text) (send : Bool) (b : Dict Text (List ℕ))
      → check window threshold now (x ∷ ts) send b
        ≡ check window threshold now ts (send && has_room b x) (expired x b)
  unfolding check expired has_room
  check-cons x ts send b = ground arith

  -- The bucket of a checked ticker has lost its expired head; the others are as they were.
  pub bucket-check :
      (ts : List Text) (send : Bool) (b : Dict Text (List ℕ)) (t : Text)
      → bucket t (check window threshold now ts send b).1
        ≡ (if elem t ts then expire window now (bucket t b) else bucket t b)
  bucket-check [] send b t = unfold check elem any in refl
  bucket-check (x ∷ ts) send b t =
      rw
        (
          check-cons x ts send b,
          bucket-check ts (send && has_room b x) (expired x b) t,
          elem-cons t x ts,
        )
        (ground (
          arith,
          bucket-expired x t b,
          expire-expire window now (bucket t b),
          text_beq_iff x t,
          text_beq_iff t x,
        ))

  -- The answer is that every ticker has room once its expired head is gone.
  pub check-answer :
      (ts : List Text) (send : Bool) (b : Dict Text (List ℕ))
      → (check window threshold now ts send b).0 ≡ (send && all (has_room b) ts)
  check-answer [] send b = unfold check all in ground arith
  check-answer (x ∷ ts) send b =
      rw
        (
          check-cons x ts send b,
          check-answer ts (send && has_room b x) (expired x b),
          fun_ext (has_room-expired x b),
        )
        (unfold all in ground arith)

appended : ℕ → Text → Dict Text (List ℕ) → Dict Text (List ℕ)
appended now x b = insert x (bucket x b ++ now ∷ []) b

bucket-appended :
    (now : ℕ) (x t : Text) (b : Dict Text (List ℕ))
    → bucket t (appended now x b) ≡ (if text_beq x t then bucket t b ++ now ∷ [] else bucket t b)
unfolding appended
bucket-appended now x t b =
    ground (arith, bucket-insert x t (bucket x b ++ now ∷ []) b, text_beq_iff x t)

record_all-cons :
    (now : ℕ) (x : Text) (ts : List Text) (b : Dict Text (List ℕ))
    → record_all now (x ∷ ts) b ≡ record_all now ts (appended now x b)
unfolding record_all appended
record_all-cons now x ts b = refl

-- Without repetitions every ticker's bucket gets one entry, and no other bucket changes.
pub bucket-record_all :
    (now : ℕ) (ts : List Text) (b : Dict Text (List ℕ)) (t : Text)
    → Distinct ts
    → bucket t (record_all now ts b) ≡ (if elem t ts then bucket t b ++ now ∷ [] else bucket t b)
bucket-record_all now [] b t d = unfold record_all elem any in refl
bucket-record_all now (x ∷ ts) b t d =
    rw
      (
        record_all-cons now x ts b,
        bucket-record_all now ts (appended now x b) t d.1,
        elem-cons t x ts,
      )
      (ground (arith, bucket-appended now x t b, text_beq_iff x t, text_beq_iff t x, d.0))
