-- ===== src/Boot.antt =====
-- kernel/boot/protocol.hpp: what the boot loader reports, as the kernel stores it.
use doom_os.Base.{ℕ, Bool, List}

pub data MemoryKind : Type 0 where
  usable reserved_kind acpi_reclaimable acpi_nvs defective : MemoryKind

pub record AddressRange : Type 0 where
  pub base : ℕ
  pub length : ℕ

pub record MemoryRegion : Type 0 where
  pub base : ℕ
  pub length : ℕ
  pub kind : MemoryKind

pub record ModuleInfo : Type 0 where
  pub range : AddressRange
  pub command_line : List ℕ

pub data FramebufferKind : Type 0 where
  rgb indexed text : FramebufferKind

pub record PixelChannel : Type 0 where
  pub position : ℕ
  pub size : ℕ

pub record PaletteColor : Type 0 where
  pub red : ℕ
  pub green : ℕ
  pub blue : ℕ

pub record FramebufferInfo : Type 0 where
  pub present : Bool
  pub kind : FramebufferKind
  pub range : AddressRange
  pub pitch : ℕ
  pub width : ℕ
  pub height : ℕ
  pub bits_per_pixel : ℕ
  pub red : PixelChannel
  pub green : PixelChannel
  pub blue : PixelChannel
  pub palette : List PaletteColor

pub record AcpiInfo : Type 0 where
  pub present : Bool
  pub rsdp : AddressRange
  pub revision : ℕ

pub record BootInfo : Type 0 where
  pub command_line : List ℕ
  pub bootloader_name : List ℕ
  pub memory_map : List MemoryRegion
  pub modules : List ModuleInfo
  pub reserved : List AddressRange
  pub framebuffer : FramebufferInfo
  pub acpi : AcpiInfo
