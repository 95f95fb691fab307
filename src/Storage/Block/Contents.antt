-- ===== src/Storage/Block/Contents.antt =====
-- What was written is read back (kernel/src/driver/block.rs over ahci.rs and dma.rs).
use pickle_os.Base.{List}
