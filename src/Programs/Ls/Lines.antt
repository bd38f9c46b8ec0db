-- ===== src/Programs/Ls/Lines.antt =====
-- The lines that syscalls/ece391ls.c makes of the names, and writes.
use pony_os.Base.{
  ℕ, zero, suc, ◌+◌, ◌≤◌, ◌<◌, ◌≡◌, refl, ap, sym, ◌∙◌, arith, List, [], ◌∷◌, ◌++◌, length, pos,
  returns,
}
use mathlib.Core.Path.{subst}
use pony_os.Memory.{Memory, load, store}
use pony_os.Memory.Copy.{Apart, load-store, load-store_self}
use pony_os.FileSystem.{bytes_at}
use pony_os.FileSystem.Entries.{bytes_at-kept}
use pony_os.Process.{Kernel, memory_of, task_of}
use pony_os.Screen.{Screen, puts_scroll, video_page}
use pony_os.Screen.Cursor.{puts_scroll-InRange}
use pony_os.Screen.Printing.{
  with_memory, puts_scroll-Steady, page_of, puts_scroll-Alike_both, load-puts_scroll,
}
use pony_os.Strings.{c_string}
use pony_os.Strings.Names.{length-c_string}
use pony_os.SystemCall.{write}
use pony_os.SystemCall.Writing.{printed, write_terminal}
use pony_os.Programs.{poke}
use pony_os.Programs.Ls.Directory.{IsListable, At, page-Agree, same_task}

bytes_at-c_string :
    (task : ℕ) (m : Memory) (n a : ℕ)
    → bytes_at task m a (length (c_string task n m a)) ≡ c_string task n m a
unfolding bytes_at c_string
bytes_at-c_string task m zero a = refl
bytes_at-c_string task m (suc n) a = ground (arith, bytes_at-c_string task m n (a + 1))

bytes_at-suc :
    (task : ℕ) (m : Memory) (n a : ℕ)
    → bytes_at task m a (n + 1) ≡ bytes_at task m a n ++ (load task m (a + n) ∷ [])
unfolding bytes_at
bytes_at-suc task m zero a = ground arith
bytes_at-suc task m (suc n) a = ground (arith, bytes_at-suc task m n (a + 1))

module _ (buf : ℕ) (k0 : Kernel) (p fd : ℕ) (h : IsListable buf k0 p fd) where
  abbrev task : ℕ
  task = task_of k0

  abbrev page : ℕ
  page = video_page k0.screen

  abbrev Now : ℕ → Screen → Kernel → Type 0
  Now = At buf k0 p fd

  module _ (n : ℕ) (s : Screen) (k : Kernel) (at : Now n s k) where
    -- The newline behind the name.
    pub poke_step :
        (l : ℕ)
        → l < 33
        → (k' : Kernel) × (poke (buf + l) b'\n' k ≡ returns (b'\n', k'))
          × Now n s k'
          × (memory_of k' ≡ store task (memory_of k) (buf + l) b'\n')
    unfolding poke
    poke_step l few =
        let m' = store task (memory_of k) (buf + l) b'\n' in
        let same : (b : ℕ) → Apart task buf 33 b → load task m' b ≡ load task (memory_of k) b =
          λ b out. load-store task (memory_of k) (buf + l) b'\n' b (out l few) in
        (
          record k { screen = record (k.screen) { memory = m' } },
          ap
              (λ (t : ℕ). returns (
                b'\n',
                record k {
                  screen = record (k.screen) { memory = store t (memory_of k) (buf + l) b'\n' };
                },
              ))
              (same_task buf k0 p fd h n s k at),
          record {
            current = at.current;
            fs = at.fs;
            paging = at.paging;
            used = at.used;
            directory = at.directory;
            ready = at.ready;
            range = at.range;
            kept = λ b out off. same b out ∙ at.kept b out off;
            shown = (
              ap (λ (z : Screen). with_memory z m') at.shown.0,
              λ a q. at.shown.1 a q ∙ page-Agree buf k0 p fd h (memory_of k) m' same a q,
            );
          },
          refl,
        )

    pub write_step :
        (c : ℕ) (xs : List ℕ)
        → c < 2050
        → bytes_at task (memory_of k) buf c ≡ xs
        → video_page s ≡ page
        → (k' : Kernel) × (write k 1 buf c ≡ returns (pos c, k')) × Now n (puts_scroll xs s) k'
    write_step c xs short bytes own_page =
        let same_page : video_page k.screen ≡ page = page_of k0.screen k.screen at.paging in
        (
          record (printed k p at.current buf c) { screen = puts_scroll xs k.screen },
          write_terminal k p at.current buf c at.ready (omega arith)
              ∙ ap
                  (λ (z : List ℕ). returns (
                    pos c,
                    record (printed k p at.current buf c) { screen = puts_scroll z k.screen },
                  ))
                  (ap (λ (t : ℕ). bytes_at t (memory_of k) buf c) (same_task buf k0 p fd h n s k at)
                    ∙ bytes),
          record {
            current = at.current;
            fs = at.fs;
            paging = (puts_scroll-Steady xs k.screen).0 ∙ at.paging;
            used = at.used;
            directory = at.directory;
            ready = at.ready;
            range = puts_scroll-InRange xs k.screen at.range;
            kept = λ b out off.
                load-puts_scroll task xs k.screen b page same_page (omega (arith, h.low)) at.range
                  off
                ∙ at.kept b out off;
            shown =
                puts_scroll-Alike_both page xs s k.screen own_page (omega (arith, h.low)) at.shown;
          },
        )

  -- A line of the listing stands in the buffer.
  pub line_bytes :
      (m : Memory) (name : List ℕ)
      → c_string task 32 m buf ≡ name
      → bytes_at task (store task m (buf + length name) b'\n') buf (length name + 1)
        ≡ name ++ (b'\n' ∷ [])
  line_bytes m name read_name =
      let l = length name in
      let m' = store task m (buf + l) b'\n' in
      let few : l ≤ 32 =
        subst (λ (xs : List ℕ). length xs ≤ 32) read_name (length-c_string task m 32 buf) in
      let front : bytes_at task m' buf l ≡ bytes_at task m buf l =
        bytes_at-kept task m m' l buf (λ i q.
          load-store task m (buf + l) b'\n' (buf + i)
            (λ e. h.distinct i l q (omega arith) (sym e))) in
      let whole : bytes_at task m buf l ≡ name =
        subst (λ (xs : List ℕ). bytes_at task m buf (length xs) ≡ xs) read_name
          (bytes_at-c_string task m 32 buf) in
      bytes_at-suc task m' l buf ∙ rw (front, whole, load-store_self task m (buf + l) b'\n') refl
