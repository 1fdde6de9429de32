-- ===== src/Htable/Tests.antt =====
-- Runs of the table's operations on two small keys.
use optics.Base.{
  ℕ, ◌≡◌, refl, none, some, [], ◌∷◌, true, Text, double_until, arith, inr, replicate, str_eq,
}
use optics.Htable
use optics.Htable.{Bucket, Htable, Ret, reset, vacant}
use optics.Htable.Resize.{IsValid, Resized, reset-IsValid, resize-Resized}
use optics.Htable.Ops.{get-Does, del-Does, put-Does}
use optics.Htable.Cases.{Op, keep, insert, forget, ret_of, put_ret}
use optics.Htable.Room.{put-returns}

abbrev cpu : Text
cpu = b'c' ∷ b'p' ∷ b'u' ∷ []

abbrev holding : ℕ → Htable
holding v = record {
  len = 1;
  cap = 8;
  table = vacant ∷ record { key = some cpu; value = v } ∷ replicate 6 vacant;
}

abbrev hit : ℕ → Ret
hit v = record { found = true; value = v }

put_run : Htable.put 1 reset cpu 5 ≡ some (holding 5, hit 0)
unfolding Htable.put Htable.resize Htable.grown double_until Htable.allocates Htable.rehash
    Htable.hash Htable.probe_put Htable.slot
put_run = refl

get_run : Htable.get 1 (holding 5) cpu ≡ some (holding 5, hit 5)
unfolding Htable.get Htable.resize Htable.hash Htable.probe Htable.slot str_eq
get_run = refl

xchg_run : Htable.xchg 1 (holding 5) cpu 7 ≡ some (holding 7, hit 5)
unfolding Htable.xchg Htable.resize Htable.hash Htable.probe Htable.slot str_eq
xchg_run = refl

abbrev emptied : Htable
emptied = record {
  len = 0;
  cap = 8;
  table = vacant ∷ record { key = none; value = 5 } ∷ replicate 6 vacant;
}

del_run : Htable.del 1 (holding 5) cpu ≡ some (emptied, hit 5)
unfolding Htable.del Htable.resize Htable.hash Htable.probe Htable.slot str_eq
del_run = refl

abbrev wide : Htable
wide = record { len = 0; cap = 16; table = replicate 16 vacant }

resize_run : Htable.resize 1 reset 9 ≡ some wide
unfolding Htable.resize Htable.grown double_until Htable.allocates Htable.rehash
resize_run = refl

holding-IsValid : IsValid (holding 5)
holding-IsValid = (put-Does 1 cpu 5 reset-IsValid put_run).valid

put-Does_example : Op reset cpu (insert 5) put_ret (holding 5, hit 0)
put-Does_example = put-Does 1 cpu 5 reset-IsValid put_run

get-Does_example : Op (holding 5) cpu keep ret_of (holding 5, hit 5)
get-Does_example = get-Does 1 holding-IsValid cpu get_run

del-Does_example : Op (holding 5) cpu forget ret_of (emptied, hit 5)
del-Does_example = del-Does 1 holding-IsValid cpu del_run

resize-Resized_example : Resized reset 9 wide
resize-Resized_example = resize-Resized 1 9 reset-IsValid (omega arith) resize_run

put-returns_example : (out : Htable × Ret) × (Htable.put 1 (holding 5) cpu 7 ≡ some out)
put-returns_example = put-returns 0 cpu 7 holding-IsValid (inr (60, refl)) (omega arith)
