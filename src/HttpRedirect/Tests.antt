-- ===== src/HttpRedirect/Tests.antt =====
-- The theorems about lab/net/httpredirect/httpredirect.c, with a checksum that adds bytes up.
use quick_start.Common.{
  ℕ, ◌+◌, ◌/◌, ◌%◌, ◌≡◌, refl, List, [], ◌∷◌, ◌++◌, Bool, true, false, ◌&&◌, ◌||◌, take, replicate,
  codes, ◌==◌, arith,
}
use quick_start.HttpRedirect.Types.{NetKernel, Skb, Config}
use quick_start.HttpRedirect.Hook.{Scanned, both}
use quick_start.HttpRedirect.Redirect.{not_found}

starts_with : List ℕ → List ℕ → Bool
starts_with [] s = true
starts_with (c ∷ what) [] = false
starts_with (c ∷ what) (d ∷ s) = c == d && starts_with what s

occurs : List ℕ → List ℕ → Bool
occurs what [] = starts_with what []
occurs what (c ∷ s) = starts_with what (c ∷ s) || occurs what s

starts_with-append : (what s : List ℕ) → starts_with what (what ++ s) ≡ true
unfolding starts_with
starts_with-append [] s = refl
starts_with-append (c ∷ what) s = ground (arith, starts_with-append what s)

occurs-start : (what s : List ℕ) → starts_with what s ≡ true → occurs what s ≡ true
unfolding occurs
occurs-start what [] h = h
occurs-start what (c ∷ s) h = ground arith

occurs-append : (before what s : List ℕ) → occurs what (before ++ (what ++ s)) ≡ true
unfolding occurs
occurs-append [] what s = occurs-start what (what ++ s) (starts_with-append what s)
occurs-append (c ∷ before) what s = ground (arith, occurs-append before what s)

finds :
    (s before what behind : List ℕ) (len : ℕ)
    → take len s ≡ before ++ (what ++ behind)
    → occurs what (take len s) ≡ true
finds s before what behind len e = rw e (occurs-append before what behind)

abbrev sum : List ℕ → ℕ
sum [] = 0
sum (b ∷ bytes) = (b + sum bytes) % 65536

abbrev sums : NetKernel
sums = record {
  strnstr = λ s what len. occurs what (take len s);
  tcp_v4_check = λ len from to base. (len + sum from + sum to + base) % 65536;
  csum_partial = λ bytes base. (sum bytes + base) % 65536;
  ip_compute_csum = λ bytes. sum bytes;
  store16 = λ n. n / 256 % 256 ∷ n % 256 ∷ [];
  strnstr-finds = finds;
  length-store16 = λ n. refl;
}

abbrev off : Config
off = record { enable = 0; url = [] }

abbrev on : Config
on = record { enable = 1; url = codes "http://a.cn" }

-- An answer with `n` bytes behind it in its buffer.
abbrev answer : ℕ → Skb
answer n = record {
  headroom = 16;
  ip = replicate 9 0 ++ (6 ∷ replicate 10 7);
  tcp = replicate 20 5;
  payload = not_found 49 (codes " Not Found");
  room = replicate n 9;
  is_partial = false;
  csum_start = 0;
  csum_offset = 0;
}

-- A process that writes "1 http://a.cn" to the file.
abbrev reads : List ℕ → Scanned
reads buf = both 1 (codes "http://a.cn")
