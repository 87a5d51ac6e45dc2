-- ===== src/TcpServer/Names.antt =====
-- The names that a server gives its connections.
use network_library_baseon_c.Base.{
  ℕ, ◌+◌, ◌≤◌, ◌<◌, ◌≡◌, refl, sym, ap, ◌∙◌, inl, inr, List, [], ◌∷◌, ◌++◌, none, arith, length,
  length-append, drop, drop-append_self, Bool-cases,
}
use network_library_baseon_c.Text.{decimal}
use network_library_baseon_c.Text.Digits.{length-decimal, decimal_injective, cut_to_lem}
use network_library_baseon_c.TcpServer.{TcpServer, conn_name}
use network_library_baseon_c.TcpServer.ByName.{
  ConnectionMap, same_text, same_text-eq, same_text_refl, find, erase_name, store_name,
  find-erase_name,
}

-- A list that follows the same one.
append_cancel : (xs ys zs : List ℕ) → xs ++ ys ≡ xs ++ zs → ys ≡ zs
append_cancel xs ys zs e =
    sym (drop-append_self (length xs) xs ys refl)
    ∙ ap (drop (length xs)) e
    ∙ drop-append_self (length xs) xs zs refl

-- The suffix of a name, before snprintf.
abbrev suffix : TcpServer → ℕ → List ℕ
suffix s id = 45 ∷ (s.ip_port ++ (35 ∷ decimal id))

-- The numbers that an int holds have at most ten digits.
length-suffix :
    (s : TcpServer) (id : ℕ) → length s.ip_port ≤ 21 → id < 2147483648 → length (suffix s id) ≤ 33
length-suffix s id short small =
    omega (arith, length-append s.ip_port (35 ∷ decimal id), length-decimal 9 id (omega arith))

-- With an address text as toIpPort gives it, snprintf cuts no name of a connection off: the buffer of
-- 64 bytes takes the whole suffix for every number that an int holds.
pub conn_name_whole :
    (s : TcpServer) (id : ℕ)
    → length s.ip_port ≤ 21
    → id < 2147483648
    → conn_name s.name s.ip_port id ≡ s.name ++ (45 ∷ (s.ip_port ++ (35 ∷ decimal id)))
unfolding conn_name
conn_name_whole s id short small =
    ap (◌++◌ s.name) (cut_to_lem 64 (suffix s id) (omega (arith, length-suffix s id short small)))

pub conn_name_injective :
    (s : TcpServer) (i j : ℕ)
    → length s.ip_port ≤ 21
    → i < 2147483648
    → j < 2147483648
    → conn_name s.name s.ip_port i ≡ conn_name s.name s.ip_port j
    → i ≡ j
conn_name_injective s i j short si sj e =
    let whole = sym (conn_name_whole s i short si) ∙ e ∙ conn_name_whole s j short sj in
    let rest = append_cancel s.name (suffix s i) (suffix s j) whole in
    let tail = append_cancel (45 ∷ s.ip_port) (35 ∷ decimal i) (35 ∷ decimal j) rest in
    decimal_injective i j (ap (drop 1) tail)

-- The names of a map are those of numbers below `k`, and each stands there once.
abbrev pub NamedBelow : TcpServer → ℕ → ConnectionMap → Type 0
NamedBelow s k [] = Unit {0}
NamedBelow s k ((n, c) ∷ m) =
    ((i : ℕ) × (i < k) × (n ≡ conn_name s.name s.ip_port i)) × (find n m ≡ none) × NamedBelow s k m

-- The next name is not in the map.
pub fresh_name :
    (s : TcpServer) (k : ℕ) (m : ConnectionMap)
    → length s.ip_port ≤ 21
    → k < 2147483648
    → NamedBelow s k m
    → find (conn_name s.name s.ip_port k) m ≡ none
unfolding find
fresh_name s k [] short small v = refl
fresh_name s k ((n, c) ∷ m) short small ((i, lt, e), once, v) =
    elim (Bool-cases (same_text n (conn_name s.name s.ip_port k))) [
      | inl same ↦ absurd (
          let equal : i ≡ k =
            conn_name_injective s i k short (omega arith) small
              (sym e ∙ same_text-eq n (conn_name s.name s.ip_port k) same) in
          omega arith)
      | inr other ↦ rw other (fresh_name s k m short small v)
    ]

-- More numbers, or fewer connections, keep the names so.
pub suc-NamedBelow :
    (s : TcpServer) (k : ℕ) (m : ConnectionMap) → NamedBelow s k m → NamedBelow s (k + 1) m
suc-NamedBelow s k [] v = tt
suc-NamedBelow s k ((n, c) ∷ m) ((i, lt, e), once, v) =
    ((i, omega arith, e), once, suc-NamedBelow s k m v)

pub erase_name-NamedBelow :
    (s : TcpServer) (k : ℕ) (name : List ℕ) (m : ConnectionMap)
    → NamedBelow s k m
    → NamedBelow s k (erase_name name m)
unfolding erase_name
erase_name-NamedBelow s k name [] v = tt
erase_name-NamedBelow s k name ((n, c) ∷ m) (named, once, v) =
    elim (Bool-cases (same_text n name)) [
      | inl same ↦ rw same (erase_name-NamedBelow s k name m v)
      | inr other ↦ rw other (
        named,
        find-erase_name name n m ∙ rw once (ground arith),
        erase_name-NamedBelow s k name m v,
      )
    ]

-- The connection that gets the next number.
pub store_name-NamedBelow :
    (s : TcpServer) (k c : ℕ) (m : ConnectionMap)
    → NamedBelow s k m
    → NamedBelow s (k + 1) (store_name (conn_name s.name s.ip_port k) c m)
unfolding store_name
store_name-NamedBelow s k c m v =
    let name = conn_name s.name s.ip_port k in
    (
      (k, omega arith, refl),
      find-erase_name name name m ∙ rw (same_text_refl name) refl,
      suc-NamedBelow s k (erase_name name m) (erase_name-NamedBelow s k name m v),
    )
