-- ===== src/Hy2/Config/StatelessReset.antt =====
-- core/hy2/stateless_reset.go: the key of a node, from a secret in a file beside the configuration.
-- encoding/hex, crypto/hmac, path/filepath and strings.TrimSpace are parameters.
use bxtest.Prelude.{
  Str, codes, text_eq, ltb, length, false, if◌then◌else◌, Option, none, some, List, [], ◌∷◌, ◌++◌,
  Map, lookup, insert, erase, lookup-insert, beq_refl, Result, ok, err, Option-cases, Result-cases,
  ◌>>=◌, err_absurd, ◌==◌, ◌≡◌, refl, subst, ap, ◌∙◌, inl, inr, ◌≤◌, arith,
}

pub record Codec : Type 0 where
  pub secret_path : Str → Str
  pub trim_space : Str → Str
  pub encode : Str → Str
  pub decode : Str → Option Str
  -- the first 32 bytes of the HMAC of a tag
  pub hmac : Str → Str → Str

-- The files, and the errors with which the system answers for a path that is not there yet.
pub record Disk : Type 0 where
  pub files : Map Str Str
  pub read_error : Str → Option Str
  pub create_error : Str → Option Str
  pub write_error : Str → Option Str

module _ (x : Codec) where
  -- the secret in the text of a file
  decode_secret : Str → Str → Result Str
  decode_secret path text = elim (x.decode (x.trim_space text)) [
    | none ↦ err (codes "invalid stateless reset secret in " ++ path)
    | some secret ↦
        if ltb (length secret) 32
        then err (codes "invalid stateless reset secret in " ++ path)
        else ok secret
  ]

  -- f.WriteString: the file is removed again when it cannot be written
  write_secret : Str → Str → Disk → Result Str × Disk
  write_secret path secret disk = elim (disk.write_error path) [
    | some e ↦ (err e, record disk { files = erase path disk.files })
    | none ↦
        (ok secret, record disk { files = insert path (x.encode secret ++ codes "\n") disk.files })
  ]

  -- os.OpenFile with O_EXCL, when nobody has created the file
  create_secret : Str → Str → Disk → Result Str × Disk
  unfolding write_secret
  create_secret path secret disk = elim (disk.create_error path) [
    | some e ↦ (err e, disk)
    | none ↦ write_secret path secret disk
  ]

  -- the file is read, and without one a secret is drawn and handed to `create`
  read_or : Str → Result Str → (Str → Result Str × Disk) → Disk → Result Str × Disk
  unfolding decode_secret
  read_or path random create disk = elim (lookup path disk.files) [
    | some text ↦ (decode_secret path text, disk)
    | none ↦ elim (disk.read_error path) [
      | some e ↦ (err e, disk)
      | none ↦ elim random [ err e ↦ (err e, disk) | ok secret ↦ create secret ]
    ]
  ]

  -- func loadStatelessResetSecret(path). `random` is what rand.Read answers, and `others` what other
  -- nodes put at the path between the reading and the creation of the file, one for each attempt.
  unfoldable pub load_secret : Str → Result Str → List (Option Str) → Disk → Result Str × Disk
  unfolding read_or create_secret
  load_secret path random [] disk =
      read_or path random (λ secret. create_secret path secret disk) disk
  load_secret path random (none ∷ rest) disk =
      read_or path random (λ secret. create_secret path secret disk) disk
  load_secret path random (some text ∷ rest) disk =
      read_or path random
        (λ secret.
          load_secret path random rest (record disk { files = insert path text disk.files }))
        disk

  -- func loadStatelessResetKey(configPath, tag), `none` for no key
  unfoldable pub load_key :
      Str → Str → Result Str → List (Option Str) → Disk → Result (Option Str) × Disk
  unfolding load_secret
  load_key config_path tag random others disk =
      if config_path == []
      then (ok none, disk)
      else let (secret, disk') = load_secret (x.secret_path config_path) random others disk in
        (secret >>= (λ s. ok (some (x.hmac s tag))), disk')

  -- The secret stands in the file, as it is read.
  abbrev Holds : Str → Str → Disk → Type 0
  Holds path secret disk =
      (text : Str) × (lookup path disk.files ≡ some text) × (decode_secret path text ≡ ok secret)

  -- A secret of 32 bytes comes back from its hexadecimal digits.
  pub record IsHex : Type 0 where
    pub decode_encode : (s : Str) → x.decode (x.trim_space (x.encode s ++ codes "\n")) ≡ some s

  read_or-some :
      (path text : Str) (random : Result Str) (create : Str → Result Str × Disk) (disk : Disk)
      → lookup path disk.files ≡ some text
      → read_or path random create disk ≡ (decode_secret path text, disk)
  unfolding read_or
  read_or-some path text random create disk e = rw (e, read_or) refl

  read_or-none :
      (path random : Str) (create : Str → Result Str × Disk) (disk : Disk)
      → lookup path disk.files ≡ none
      → disk.read_error path ≡ none
      → read_or path (ok random) create disk ≡ create random
  unfolding read_or
  read_or-none path random create disk e f = rw (e, read_or, f) refl

  read_or-Holds :
      (path random secret : Str) (create : Str → Result Str × Disk) (disk : Disk)
      → ((create random).0 ≡ ok secret → Holds path secret (create random).1)
      → (read_or path (ok random) create disk).0 ≡ ok secret
      → Holds path secret (read_or path (ok random) create disk).1
  unfolding read_or
  read_or-Holds path random secret create disk k h = elim (Option-cases (lookup path disk.files)) [
    | inr (text, e) ↦
        rw (read_or-some path text (ok random) create disk e)
          (text, e, rw (read_or-some path text (ok random) create disk e) at h)
    | inl e ↦ elim (Option-cases (disk.read_error path)) [
      | inr (m, f) ↦ err_absurd (rw (read_or, e, f) at h)
      | inl f ↦
          rw (read_or-none path random create disk e f)
            (k (rw (read_or-none path random create disk e f) at h))
    ]
  ]

  decode_secret-encode :
      IsHex
      → (path secret : Str) → 32 ≤ length secret
      → decode_secret path (x.encode secret ++ codes "\n") ≡ ok secret
  unfolding decode_secret
  decode_secret-encode hex path secret n =
      rw (decode_secret, hex.decode_encode secret) (ground arith)

  create_secret-Holds :
      IsHex
      → (path random : Str) (disk : Disk) (secret : Str) → 32 ≤ length random
      → (create_secret path random disk).0 ≡ ok secret
      → Holds path secret (create_secret path random disk).1
  unfolding create_secret
  create_secret-Holds hex path random disk secret n h =
      elim (Option-cases (disk.create_error path)) [
        | inr (m, e) ↦ err_absurd (rw (e, create_secret) at h)
        | inl e ↦ elim (Option-cases (disk.write_error path)) [
          | inr (m, f) ↦ err_absurd (rw (e, f, write_secret, create_secret) at h)
          | inl f ↦
              rw (e, f, write_secret, create_secret)
                (
                  x.encode random ++ codes "\n",
                  lookup-insert path path _ disk.files ∙ rw (beq_refl path) refl,
                  decode_secret-encode hex path random n
                      ∙ (rw (e, f, write_secret, create_secret) at h),
                )
        ]
      ]

  load_secret-Holds :
      IsHex
      → (path random : Str) (others : List (Option Str)) (disk : Disk) (secret : Str)
      → 32 ≤ length random
      → (load_secret path (ok random) others disk).0 ≡ ok secret
      → Holds path secret (load_secret path (ok random) others disk).1
  unfolding load_secret
  load_secret-Holds hex path random [] disk secret n h =
      read_or-Holds path random secret (λ s. create_secret path s disk) disk
        (create_secret-Holds hex path random disk secret n) h
  load_secret-Holds hex path random (none ∷ rest) disk secret n h =
      read_or-Holds path random secret (λ s. create_secret path s disk) disk
        (create_secret-Holds hex path random disk secret n) h
  load_secret-Holds hex path random (some text ∷ rest) disk secret n h =
      read_or-Holds path random secret
        (λ s.
          load_secret path (ok random) rest (record disk { files = insert path text disk.files }))
        disk
        (load_secret-Holds hex path random rest
          (record disk { files = insert path text disk.files }) secret n)
        h

  Holds-load_secret :
      (path secret : Str) (random : Result Str) (others : List (Option Str)) (disk : Disk)
      → Holds path secret disk
      → load_secret path random others disk ≡ (ok secret, disk)
  unfolding load_secret
  Holds-load_secret path secret random [] disk (text, e, d) =
      read_or-some path text random _ disk e ∙ rw d refl
  Holds-load_secret path secret random (none ∷ rest) disk (text, e, d) =
      read_or-some path text random _ disk e ∙ rw d refl
  Holds-load_secret path secret random (some other ∷ rest) disk (text, e, d) =
      read_or-some path text random _ disk e ∙ rw d refl

  load_key-some :
      (p tag : Str) (random : Result Str) (others : List (Option Str)) (disk disk' : Disk)
      (key : Str)
      → load_key p tag random others disk ≡ (ok (some key), disk')
      → (s : Str) × ((p == []) ≡ false)
        × ((load_secret (x.secret_path p) random others disk).0 ≡ ok s)
        × ((load_secret (x.secret_path p) random others disk).1 ≡ disk')
        × (x.hmac s tag ≡ key)
  unfolding load_key
  load_key-some p tag random others disk disk' key h =
      elim (Result-cases (load_secret (x.secret_path p) random others disk).0) [
        | inl (s, e) ↦ (s, ground arith, e, ground arith, ground arith)
        | inr (m, e) ↦ ground arith
      ]

  load_key-of_secret :
      (p tag : Str) (random : Result Str) (others : List (Option Str)) (disk disk' : Disk) (s : Str)
      → (p == []) ≡ false
      → load_secret (x.secret_path p) random others disk ≡ (ok s, disk')
      → load_key p tag random others disk ≡ (ok (some (x.hmac s tag)), disk')
  unfolding load_key
  load_key-of_secret p tag random others disk disk' s e f = rw (e, f) refl

  -- Once a node has its key, every later load with the same configuration path and tag gives the same
  -- key and writes nothing, whatever is drawn at random and whatever other nodes do then.
  pub load_key-load_key :
      IsHex
      → (config_path tag random : Str) (others : List (Option Str)) (disk disk' : Disk) (key : Str)
        (random' : Result Str) (others' : List (Option Str))
      → 32 ≤ length random
      → load_key config_path tag (ok random) others disk ≡ (ok (some key), disk')
      → load_key config_path tag random' others' disk' ≡ (ok (some key), disk')
  load_key-load_key hex p tag random others disk disk' key random' others' n h =
      let (s, e, a, b, k) = load_key-some p tag (ok random) others disk disk' key h in
      let held : Holds (x.secret_path p) s disk' =
        subst (Holds (x.secret_path p) s) b
          (load_secret-Holds hex (x.secret_path p) random others disk s n a) in
      load_key-of_secret p tag random' others' disk' disk' s e
        (Holds-load_secret (x.secret_path p) s random' others' disk' held)
      ∙ ap (λ r. (ok (some r), disk')) k
