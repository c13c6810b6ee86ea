-- ===== src/Settings/Addresses.antt =====
-- rawfile/utils/net.py: the entries that name a server. `strip` is Python's.
use Prim.Native.Char.{Char, code}
use Prim.Native.String.{String, [], ◌∷◌, ◌++◌}
use Prim.Native.String.append
use rawfile_localpv.Prelude.{
  ℕ, ◌+◌, ◌≡◌, refl, subst, arith, Bool, true, false, ◌||◌, ◌&&◌, not, ◌==◌, if◌then◌else◌,
}

abbrev pub has_char : ℕ → String → Bool
has_char n [] = false
has_char n (c ∷ s) = (code c == n) || has_char n s

abbrev pub count_char : ℕ → String → ℕ
count_char n [] = 0
count_char n (c ∷ s) = if code c == n then 1 + count_char n s else count_char n s

-- `s.partition(c)`, without the separator.
abbrev pub partition : ℕ → String → String × String
partition n [] = ([], [])
partition n (c ∷ s) = if code c == n then ([], s) else (c ∷ (partition n s).0, (partition n s).1)

-- `s.lstrip(c)`
abbrev pub lstrip : ℕ → String → String
lstrip n [] = []
lstrip n (c ∷ s) = if code c == n then lstrip n s else c ∷ s

abbrev pub bracketed : String → String × String
bracketed rest = let p = partition b']' rest in (p.0, lstrip b':' p.1)

abbrev pub plain_address : String → String × String
plain_address s = if count_char b':' s == 1 then partition b':' s else (s, [])

abbrev split_stripped : String → String × String
split_stripped [] = plain_address []
split_stripped (c ∷ s) = if code c == b'[' then bracketed s else plain_address (c ∷ s)

module _ (strip : String → String) where
  -- `split_host_port`
  unfoldable pub split_host_port : String → String × String
  split_host_port entry = split_stripped (strip entry)

partition-join :
    (n : ℕ) (c : Char) (a b : String)
    → (code c == n) ≡ true
    → has_char n a ≡ false
    → partition n (a ++ (c ∷ b)) ≡ (a, b)
partition-join n c [] b e h = rw append.nil (rw e refl)
partition-join n c (d ∷ a) b e h =
    rw append.cons (rw (partition-join n c a b e (ground (arith, h))) (ground (arith, h)))

count_char-none : (n : ℕ) (s : String) → has_char n s ≡ false → count_char n s ≡ 0
count_char-none n [] h = refl
count_char-none n (c ∷ s) h = rw (count_char-none n s (ground (arith, h))) (ground (arith, h))

count_char-join :
    (n : ℕ) (c : Char) (a b : String)
    → (code c == n) ≡ true
    → has_char n a ≡ false
    → has_char n b ≡ false
    → count_char n (a ++ (c ∷ b)) ≡ 1
count_char-join n c [] b e h k = rw append.nil (rw e (rw (count_char-none n b k) (omega arith)))
count_char-join n c (d ∷ a) b e h k =
    rw append.cons (rw (count_char-join n c a b e (ground (arith, h)) k) (ground (arith, h)))

-- The text begins with a bracket.
abbrev pub opens : String → Bool
opens [] = false
opens (c ∷ s) = code c == b'['

plain_address-join :
    (host port : String)
    → has_char b':' host ≡ false
    → has_char b':' port ≡ false
    → plain_address (host ++ ":" ++ port) ≡ (host, port)
plain_address-join host port h k =
    rw (append.cons, append.nil)
      (rw (count_char-join b':' ":" host port refl h k)
        (rw (partition-join b':' ":" host port refl h) refl))

split_stripped-join :
    (host port : String)
    → opens host ≡ false
    → has_char b':' host ≡ false
    → has_char b':' port ≡ false
    → split_stripped (host ++ ":" ++ port) ≡ (host, port)
split_stripped-join [] port o h k =
    rw (append.nil, append.cons, append.nil) (rw (count_char-none b':' port k) refl)
split_stripped-join (c ∷ host) port o h k = rw append.cons (
    rw o (
      subst (λ x. plain_address x ≡ (c ∷ host, port)) (append.cons c host (":" ++ port))
        (plain_address-join (c ∷ host) port h k)))

lstrip-none : (port : String) → has_char b':' port ≡ false → lstrip b':' port ≡ port
lstrip-none [] h = refl
lstrip-none (c ∷ s) h = ground (arith, h)

bracketed-join :
    (host port : String)
    → has_char b']' host ≡ false
    → lstrip b':' port ≡ port
    → bracketed (host ++ "]:" ++ port) ≡ (host, port)
bracketed-join host port h k =
    rw (append.cons, append.cons, append.nil)
      (rw (partition-join b']' "]" host (":" ∷ port) refl h) (rw k refl))

-- The entry that an address and a port make: with brackets round the address, or without.
abbrev pub join_host_port : Bool → String → String → String
join_host_port true host port = "[" ++ host ++ "]:" ++ port
join_host_port false host port = host ++ ":" ++ port

-- What an address and a port must not have to be told apart.
abbrev pub is_separable : Bool → String → String → Bool
is_separable true host port = not (has_char b']' host)
is_separable false host port = not (opens host) && not (has_char b':' host)

split_joined :
    (brackets : Bool) (host port : String)
    → is_separable brackets host port ≡ true
    → has_char b':' port ≡ false
    → split_stripped (join_host_port brackets host port) ≡ (host, port)
split_joined true host port h k =
    rw (append.cons, append.nil) (bracketed-join host port (ground (arith, h)) (lstrip-none port k))
split_joined false host port h k =
    split_stripped-join host port (ground (arith, h)) (ground (arith, h)) k

-- An entry that is made of an address without the separators and a port without a colon, with or
-- without brackets and with no space around it, splits back into the address and the port.
pub split_host_port-join_host_port :
    (strip : String → String) (brackets : Bool) (host port : String)
    → strip (join_host_port brackets host port) ≡ join_host_port brackets host port
    → is_separable brackets host port ≡ true
    → has_char b':' port ≡ false
    → split_host_port strip (join_host_port brackets host port) ≡ (host, port)
unfolding split_host_port
split_host_port-join_host_port strip brackets host port s h k =
    rw s (split_joined brackets host port h k)
