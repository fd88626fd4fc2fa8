-- ===== src/RegistryTests.antt =====
-- The registry of locks of src/lock.rs at fixed inputs.
use mathlib.Core.Path.{subst}
use mmreg.Lock.Registry.{FileKey, Registry, insert_or_get}
use mmreg.Lock.Sharing.{Reaches, start, got, insert_or_get-Shares}
use mmreg.Lock.{put}
use mmreg.Prelude.{ℕ, ◌≤◌, [], ◌∷◌, none, ok, ap, ◌≡◌, refl}

abbrev axi : FileKey
axi = record { dev = 6; ino = 42 }

abbrev empty : Registry
empty = record { table = []; strong = λ id. 0; file = λ id. record { dev = 0; ino = 0 }; next = 0 }

-- A process that has one handle of the lock of a file.
abbrev one_handle : Registry
one_handle = record {
  table = (axi, 0) ∷ [];
  strong = put 0 1 (λ id. 0);
  file = put 0 axi (λ id. record { dev = 0; ino = 0 });
  next = 1;
}

first_got : insert_or_get axi none [] empty ≡ (ok 0, one_handle)
unfolding insert_or_get
first_got = refl

shared : (insert_or_get axi none [] one_handle).0 ≡ ok 0
unfolding insert_or_get
shared = refl

-- The last handle is dropped while another thread looks the lock up.
abbrev renewed : Registry
renewed = record {
  table = (axi, 0) ∷ (axi, 1) ∷ [];
  strong = put 1 1 (put 0 0 (put 0 1 (λ id. 0)));
  file = put 1 axi one_handle.file;
  next = 2;
}

renewed_got : insert_or_get axi none (0 ∷ []) one_handle ≡ (ok 1, renewed)
unfolding insert_or_get
renewed_got = refl

insert_or_get-Shares_example :
    (renewed.file 1 ≡ axi)
    × (1 ≤ renewed.strong 1)
    × ((x : ℕ) → 1 ≤ renewed.strong x → renewed.file x ≡ axi → x ≡ 1)
insert_or_get-Shares_example =
    insert_or_get-Shares axi none (0 ∷ [])
      (subst Reaches (ap (λ q. q.1) first_got)
        (got axi none [] (start (λ id. record { dev = 0; ino = 0 }))))
      renewed_got
