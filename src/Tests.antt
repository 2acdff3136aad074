-- ===== src/Tests.antt =====
-- The theorems at concrete inputs.
mod Extents
mod Superblock
mod Inodes
mod Device
mod Directories
mod Attributes
mod Mounted
mod Tree
mod Files
mod Names
mod Hashes
mod Nodes
mod Blocks
mod Leaves
mod Listings
mod Links
mod Forks
mod Trees
mod Addresses
mod Listed
mod Requests
