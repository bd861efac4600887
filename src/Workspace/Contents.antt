-- ===== src/Workspace/Contents.antt =====
-- A preview shows the front of the file, up to its bound.
use dsh_chaos.Common.{
  ℕ, ◌≤◌, ◌<◌, true, false, List, length, take, drop, ◌≡◌, ◌⊎◌, nat_eq, ltb, any, none, some,
}
use dsh_chaos.Common.Results.{ok}
use dsh_chaos.Workspace.Files.{Files, Info}
use dsh_chaos.Workspace.Preview.{Preview}

-- The preview shows these bytes, as text or, where they are no UTF-8 or have a zero, as binary.
abbrev pub Shows : {W Handle : Type 0} → Files W Handle → Info → List ℕ → Preview → Type 0
Shows files info shown p =
    (length shown ≤ 524288)
    × (p.size ≡ info.size)
    × (p.truncated ≡ ltb 524288 info.size)
    × (((files.is_utf8 shown ≡ true)
          × (any (λ b. nat_eq b 0) shown ≡ false)
          × (p.binary ≡ false)
          × (p.content ≡ some (files.text_of shown)))
        ⊎ (((files.is_utf8 shown ≡ false) ⊎ (any (λ b. nat_eq b 0) shown ≡ true))
            × (p.binary ≡ true)
            × (p.content ≡ none)))

module _ {W Handle : Type 0} (files : Files W Handle) (contents : Handle → List ℕ) where
  -- The documented read of a file that does not change meanwhile: bytes from the position on, at
  -- most as many as asked for, and none only at the end or where none are asked for.
  pub record Delivers : Type 0 where
    pub delivers :
        (handle : Handle) (asked position : ℕ) (w : W)
        → (n : ℕ) × ((files.read handle asked position w).0
            ≡ ok (take n (drop position (contents handle))))
          × (n ≤ asked)
          × ((0 < n) ⊎ (asked ≡ 0) ⊎ (length (contents handle) ≤ position))
