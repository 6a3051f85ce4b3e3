-- ===== src/Shell/Lines.antt =====
-- The lines that a user types for a put, a get and a removal, and how the loop of
-- source/client_hashtable.c splits them.
use kv_storage_service.Common.{
  ◌<◌, ◌≤◌, ◌≡◌, ◌≢◌, refl, ap, some, [], ◌∷◌, ◌++◌, All, length, length-append, arith,
}
use kv_storage_service.Text.{Str}
use kv_storage_service.Text.Token.{skip, token, behind, strtok}
use kv_storage_service.Block.{Bytes}
use kv_storage_service.Table.Hash.{IsPlain}
use kv_storage_service.Shell.{space, line_end, max_msg}

pub data Request : Type 0 where
  store : Str → Bytes → Request
  read remove : Str → Request

-- "put ", "get ", "del "
abbrev pub put_word : Str
put_word = 112 ∷ 117 ∷ 116 ∷ []

abbrev pub get_word : Str
get_word = 103 ∷ 101 ∷ 116 ∷ []

abbrev pub del_word : Str
del_word = 100 ∷ 101 ∷ 108 ∷ []

-- The line of a request, with its newline.
abbrev pub line : Request → Str
line (store k v) = put_word ++ 32 ∷ k ++ 32 ∷ v ++ line_end
line (read k) = get_word ++ 32 ∷ k ++ line_end
line (remove k) = del_word ++ 32 ∷ k ++ line_end

-- no space and no newline in it
abbrev pub IsWord : Str → Type 0
IsWord s = All (λ c. (c ≢ 32) × (c ≢ 10)) s

-- no newline in it
abbrev pub IsText : Str → Type 0
IsText s = All (λ c. c ≢ 10) s

-- A key that can be typed and hashed.
pub record IsKey (k : Str) : Type 0 where
  pub named : 0 < length k
  pub word : IsWord k
  pub plain : IsPlain k

-- A request whose line fgets gives as a whole.
abbrev pub IsTyped : Request → Type 0
IsTyped (store k v) = IsKey k × IsText v × (0 < length v) × (length (line (store k v)) < max_msg)
IsTyped (read k) = IsKey k × (length (line (read k)) < max_msg)
IsTyped (remove k) = IsKey k × (length (line (remove k)) < max_msg)

pub length-value : (k v : Str) → length v ≤ length (line (store k v))
length-value k v = omega (
  arith,
  length-append (((put_word ++ 32 ∷ k) ++ 32 ∷ v)) line_end,
  length-append (put_word ++ 32 ∷ k) (32 ∷ v),
)

pub token-line : (s : Str) → IsText s → token line_end (s ++ line_end) ≡ s
unfolding token
token-line [] a = refl
token-line (c ∷ cs) (ne, a) = ground (arith, token-line cs a)

token-word : (s rest : Str) → IsWord s → token space (s ++ 32 ∷ rest) ≡ s
unfolding token
token-word [] rest a = refl
token-word (c ∷ cs) rest ((ne, _), a) = ground (arith, token-word cs rest a)

behind-word : (s rest : Str) → IsWord s → behind space (s ++ 32 ∷ rest) ≡ rest
unfolding behind
behind-word [] rest a = refl
behind-word (c ∷ cs) rest ((ne, _), a) = ground (arith, behind-word cs rest a)

token-last : (s : Str) → IsWord s → token space s ≡ s
unfolding token
token-last [] a = refl
token-last (c ∷ cs) ((ne, _), a) = ground (arith, token-last cs a)

pub strtok-word :
    (s rest : Str) → 0 < length s → IsWord s → strtok space (s ++ 32 ∷ rest) ≡ (some s, rest)
unfolding strtok skip
strtok-word [] rest lt a = absurd (omega arith)
strtok-word (c ∷ cs) rest lt (ne, a) =
    ground (arith, token-word (c ∷ cs) rest (ne, a), behind-word (c ∷ cs) rest (ne, a))

pub strtok-last : (s : Str) → 0 < length s → IsWord s → (strtok space s).0 ≡ some s
unfolding strtok skip
strtok-last [] lt a = absurd (omega arith)
strtok-last (c ∷ cs) lt (ne, a) = ground (arith, token-last (c ∷ cs) (ne, a))

token-nothing : (s : Str) → token [] s ≡ s
unfolding token
token-nothing [] = refl
token-nothing (c ∷ cs) = ap (λ t. c ∷ t) (token-nothing cs)

-- `strtok(NULL, "")` gives what is left.
pub strtok-rest : (s : Str) → 0 < length s → (strtok [] s).0 ≡ some s
unfolding strtok skip
strtok-rest [] lt = absurd (omega arith)
strtok-rest (c ∷ cs) lt = ap some (token-nothing (c ∷ cs))

pub IsWord-IsText : (s : Str) → IsWord s → IsText s
IsWord-IsText [] a = tt
IsWord-IsText (c ∷ cs) ((_, ne), a) = (ne, IsWord-IsText cs a)

pub IsText-append : (s t : Str) → IsText s → IsText t → IsText (s ++ t)
IsText-append [] t a b = b
IsText-append (c ∷ s) t (ne, a) b = (ne, IsText-append s t a b)
