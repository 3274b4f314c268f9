-- ===== src/Pmm.antt =====
-- kernel/mm/pmm.cpp: the physical frame allocator. A bitmap holds a set bit for each free frame.
-- Frames are grouped in blocks of 512 (2 MiB); a block with free frames stands on one of two doubly
-- linked lists, of whole blocks and of broken ones, threaded through the array of blocks.
-- The arrays have static sizes in the source: `block_count` is the size of `m_blocks`, and the
-- bitmap has eight words for each block. Every entry runs under the one lock, so a call is a
-- function on the state.
pub mod Chain
pub mod Links
pub mod Push
pub mod Unlink
pub mod Lists
pub mod Moves
pub mod Valid
pub mod Take
pub mod TakeBlocks
pub mod Release
pub mod Populate
mod Tests
use doom_os.Base.{
  ℕ, zero, suc, ◌+◌, ◌-◌, ◌*◌, ◌/◌, ◌%◌, ◌^◌, Bool, true, false, not, ◌&&◌, ◌||◌, List, Option,
  none, some, get_or, set, length, ltb, leb, ◌==◌, ◌!=◌, if◌then◌else◌,
}
use doom_os.Bits.{decrement, is_aligned}
use doom_os.Bitmap.{
  Bitmap, npos, find_set, find_set_in, set_range, clear_range, clear_bit, count_set,
}
use doom_os.Page.{
  PageSize, size_4k, size_2m, size_1g, MmError, out_of_memory, frame_shift, bytes_in, frames_in,
}

abbrev pub nil : ℕ
nil = 2 ^ 16 - 1

abbrev pub frames_per_block : ℕ
frames_per_block = 512

abbrev pub words_per_block : ℕ
words_per_block = 8

pub record Block : Type 0 where
  pub free : ℕ
  pub next : ℕ
  pub prev : ℕ

-- What a read out of range gives; the invariant rules such reads out.
abbrev pub no_block : Block
no_block = record { free = 0; next = nil; prev = nil }

pub record Pmm : Type 0 where
  pub frames : Bitmap
  pub blocks : List Block
  pub whole : ℕ
  pub broken : ℕ

abbrev pub block : Pmm → ℕ → Block
block p index = get_or p.blocks index no_block

abbrev pub block_count : Pmm → ℕ
block_count p = length p.blocks

abbrev pub max_frames : Pmm → ℕ
max_frames p = block_count p * frames_per_block

abbrev pub set_block : Pmm → ℕ → Block → Pmm
set_block p index b = record p { blocks = set p.blocks index b }

abbrev pub address_of : ℕ → ℕ
address_of frame = frame * 2 ^ frame_shift

-- The two list heads, which the source passes by reference.
pub data Head : Type 0 where
  whole_list broken_list : Head

abbrev pub head_of : Pmm → Head → ℕ
head_of p whole_list = p.whole
head_of p broken_list = p.broken

abbrev pub set_head : Pmm → Head → ℕ → Pmm
set_head p whole_list index = record p { whole = index }
set_head p broken_list index = record p { broken = index }

unfoldable pub list_of : ℕ → Option Head
list_of free =
    if free == 0
    then none
    else if free == frames_per_block
    then some whole_list
    else some broken_list

-- `push`, statement by statement.
unfoldable pub link_front : Pmm → Head → ℕ → Pmm
link_front p head index =
    set_block p index (record (block p index) { next = head_of p head; prev = nil })

unfoldable pub link_old : Pmm → ℕ → ℕ → Pmm
link_old p old index =
    if old != nil then set_block p old (record (block p old) { prev = index % 2 ^ 16 }) else p

unfoldable pub push : Pmm → Head → ℕ → Pmm
push p head index =
    set_head (link_old (link_front p head index) (head_of p head) index) head (index % 2 ^ 16)

-- `unlink`: past the block, and back past it. `b` is a reference, so that the second statement
-- reads the block again.
unfoldable pub bypass : Pmm → Head → ℕ → Pmm
bypass p head index =
    if (block p index).prev == nil
    then set_head p head (block p index).next
    else set_block p (block p index).prev
        (record (block p (block p index).prev) { next = (block p index).next })

unfoldable pub bypass_back : Pmm → ℕ → Pmm
bypass_back p index =
    if (block p index).next != nil
    then set_block p (block p index).next
        (record (block p (block p index).next) { prev = (block p index).prev })
    else p

unfoldable pub unlink : Pmm → Head → ℕ → Pmm
unlink p head index = bypass_back (bypass p head index) index

abbrev pub same_list : Option Head → Option Head → Bool
same_list none none = true
same_list (some whole_list) (some whole_list) = true
same_list (some broken_list) (some broken_list) = true
same_list _ _ = false

abbrev pub leave : Option Head → Pmm → ℕ → Pmm
leave none p index = p
leave (some head) p index = unlink p head index

abbrev pub enter : Option Head → Pmm → ℕ → Pmm
enter none p index = p
enter (some head) p index = push p head index

unfoldable pub set_free : Pmm → ℕ → ℕ → Pmm
set_free p index free =
    let from = list_of (block p index).free in
    let to = list_of free in
    let moved = if same_list from to then p else enter to (leave from p index) index in
    set_block moved index (record (block moved index) { free = free % 2 ^ 16 })

-- `set_free(first + i, free)` for the `n` blocks from `first` on.
unfoldable pub set_free_all : Pmm → ℕ → ℕ → ℕ → Pmm
set_free_all p first zero free = p
set_free_all p first (suc n) free = set_free_all (set_free p first free) (first + 1) n free

unfoldable pub take_whole : Pmm → ℕ → ℕ → ℕ × Pmm
take_whole p first count =
    let cleared = record p {
      frames = clear_range p.frames (first * frames_per_block) (count * frames_per_block);
    } in
    (address_of (first * frames_per_block), set_free_all cleared first count 0)

-- Whether the `n` blocks from `index` on are all whole.
unfoldable pub whole_run : Pmm → ℕ → ℕ → Bool
whole_run p index zero = true
whole_run p index (suc n) =
    if (block p index).free == frames_per_block then whole_run p (index + 1) n else false

-- The `for` loop of `find_whole_run`, with a round for each aligned run from `first` on.
unfoldable pub find_run : Pmm → ℕ → ℕ → ℕ → ℕ
find_run p run first zero = nil
find_run p run first (suc rounds) =
    if whole_run p first run then first else find_run p run (first + run) rounds

unfoldable pub find_whole_run : Pmm → ℕ → ℕ
find_whole_run p run =
    if run == 1 then p.whole else find_run p run 0 ((block_count p + (run - 1)) / run)

-- How a call ends: with a value, with an error, or in the kernel's panic, which does not return.
pub data Outcome {ℓ} (A : Type ℓ) : Type ℓ where
  ok : A → Pmm → Outcome A
  err : MmError → Pmm → Outcome A
  panic : Outcome A

unfoldable pub take_frame : Pmm → Outcome ℕ
take_frame p =
    let index = if p.broken != nil then p.broken else p.whole in
    let frame = find_set p.frames (index * words_per_block) words_per_block in
    if index == nil
    then err out_of_memory p
    else if frame == npos
    then panic
    else ok (address_of frame) (
        set_free (record p { frames = clear_bit p.frames frame }) index
          (decrement 64 (block p index).free))

unfoldable pub take_blocks : Pmm → PageSize → Outcome ℕ
take_blocks p size =
    let run = frames_in size / frames_per_block in
    let first = find_whole_run p run in
    if first == nil
    then err out_of_memory p
    else let (base, p') = take_whole p first run in ok base p'

-- `pmm::alloc`
unfoldable pub alloc : Pmm → PageSize → Outcome ℕ
alloc p size_4k = take_frame p
alloc p size_2m = take_blocks p size_2m
alloc p size_1g = take_blocks p size_1g

-- `pmm::free`
unfoldable pub free : Pmm → PageSize → ℕ → Outcome (Unit {0})
free p size base =
    let count = frames_in size in
    let first = base / 2 ^ frame_shift in
    let marked = record p { frames = set_range p.frames first count } in
    let index = first / frames_per_block in
    if not (is_aligned 64 base (bytes_in size))
      || (leb (max_frames p) first || ltb (max_frames p - first) count)
    then panic
    else if find_set_in p.frames first count != npos
    then panic
    else if ltb count frames_per_block
    then ok tt (set_free marked index ((block p index).free + count))
    else ok tt (set_free_all marked index (count / frames_per_block) frames_per_block)
